-- ===== src/Processor/Genesis.antt =====
-- state_processor_genesis.go, with version.ToUint32.
pub mod Versions
pub mod State
use beacon_kit.Prelude.{zero, suc, [], ◌∷◌}
use beacon_kit.Exec.{Exec, pure, raise, lift, panic, ◌>>=◌, ◌>>◌, Result}
use beacon_kit.Collections.{Collections}
use beacon_kit.Processor.{StateProcessor}
use beacon_kit.Prelude.{Bytes, ℕ, ◌∷◌, suc, List, ◌+◌, if◌then◌else◌, ◌*◌, ◌==◌, []}
use beacon_kit.BeaconDb.{
  update_randao_mix_at_index, update_block_root_at_index, set_slot, Kv, update_state_root_at_index,
  set_fork, set_eth1_deposit_index, set_eth1_data, set_latest_block_header,
  set_genesis_validators_root, set_latest_execution_payload_header, set_next_withdrawal_index,
  set_next_withdrawal_validator_index, set_total_slashing,
}
use beacon_kit.Processor.Block.{finish, BeaconState}
use beacon_kit.Types.{
  BeaconBlockHeader, zero_root, Deposit, ExecutionPayloadHeader, ValidatorUpdate,
}
use beacon_kit.Chain.{version_deneb}
use beacon_kit.BeaconDb.Registry.{get_validators}
use beacon_kit.Processor.Deposits.{process_deposit, process_deposits}
use beacon_kit.Processor.Epoch.{process_sync_committee_updates}

-- binary.LittleEndian.Uint32 on the bytes of a version.
unfoldable pub from_little_endian : Bytes → ℕ
from_little_endian [] = 0
from_little_endian (b ∷ bs) = b + 256 * from_little_endian bs

-- version.ToUint32
unfoldable pub version_to_uint32 : Bytes → ℕ
unfolding from_little_endian
version_to_uint32 v = from_little_endian v

-- The header of the block before the first.
unfoldable pub genesis_header : Bytes → BeaconBlockHeader
genesis_header body_root = record {
  slot = 0;
  proposer_index = 0;
  parent_block_root = zero_root;
  state_root = zero_root;
  body_root = body_root;
}

module _ {c : Collections} (sp : StateProcessor) where
  -- blkBody.Empty(version).HashTreeRoot(); Empty panics on a version that is not Deneb.
  unfoldable pub empty_root : ℕ → Exec (Kv c) Bytes
  empty_root version =
      if version == version_deneb then lift (sp.empty_body_root version) else raise panic

  -- for i := range sp.cs.EpochsPerHistoricalVector(), from `i` on
  unfoldable pub prime_mixes : Bytes → ℕ → ℕ → Exec (Kv c) Unit
  unfolding update_randao_mix_at_index
  prime_mixes mix i zero = pure tt
  prime_mixes mix i (suc n) = update_randao_mix_at_index i mix >> prime_mixes mix (i + 1) n

  -- for i := range sp.cs.HistoricalRootsLimit(), from `i` on
  unfoldable pub prime_roots : ℕ → ℕ → Exec (Kv c) Unit
  unfolding update_block_root_at_index update_state_root_at_index
  prime_roots i zero = pure tt
  prime_roots i (suc n) =
      update_block_root_at_index i zero_root
      >> (update_state_root_at_index i zero_root >> prime_roots (i + 1) n)

  -- InitializePreminedBeaconStateFromEth1 up to the deposits.
  unfoldable pub prepare : ExecutionPayloadHeader → Bytes → Exec (Kv c) Unit
  unfolding set_slot set_fork set_eth1_deposit_index set_eth1_data set_latest_block_header
      set_genesis_validators_root genesis_header version_to_uint32
  prepare payload_header genesis_version = do
    set_slot 0
    set_fork (record {
      previous_version = genesis_version;
      current_version = genesis_version;
      epoch = 0;
    })
    set_eth1_deposit_index 0
    set_eth1_data (record {
      deposit_root = zero_root;
      deposit_count = 0;
      block_hash = payload_header.block_hash;
    })
    body_root ← empty_root (version_to_uint32 genesis_version)
    set_latest_block_header (genesis_header body_root)
    prime_mixes payload_header.block_hash 0 sp.cs.epochs_per_historical_vector
    set_genesis_validators_root zero_root

  -- From the deposits on, up to Save.
  unfoldable pub conclude : ExecutionPayloadHeader → Exec (Kv c) (List ValidatorUpdate)
  unfolding set_genesis_validators_root get_validators set_latest_execution_payload_header
      set_next_withdrawal_index set_next_withdrawal_validator_index set_total_slashing
  conclude payload_header = do
    vals ← get_validators
    vals_root ← lift (sp.validators_root vals)
    set_genesis_validators_root vals_root
    set_latest_execution_payload_header payload_header
    prime_roots 0 sp.cs.historical_roots_limit
    set_next_withdrawal_index 0
    set_next_withdrawal_validator_index 0
    set_total_slashing 0
    process_sync_committee_updates sp

  unfoldable pub initialize :
      List Deposit → ExecutionPayloadHeader → Bytes → Exec (Kv c) (List ValidatorUpdate)
  unfolding prepare conclude
  initialize deposits payload_header genesis_version = do
    prepare payload_header genesis_version
    process_deposits sp deposits
    conclude payload_header

  -- The whole function: a success is saved.
  unfoldable pub initialize_state :
      BeaconState c
      → List Deposit
      → ExecutionPayloadHeader
      → Bytes
      → Result (List ValidatorUpdate) × BeaconState c
  unfolding finish
  initialize_state st deposits payload_header genesis_version =
      finish sp st (initialize deposits payload_header genesis_version st.working)
