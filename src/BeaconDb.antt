-- ===== src/BeaconDb.antt =====
-- mod/storage/pkg/beacondb: the store of the beacon state. Each getter and setter of KVStore is an
-- action on the store; a missing entry is an error unless the source makes it a zero.
pub mod Registry
use beacon_kit.Prelude.{
  ℕ, ◌+◌, ◌/◌, List, [], ◌∷◌, Option, none, some, Bytes, length, if◌then◌else◌, add64,
}
use beacon_kit.Exec.{
  Result, ok, err, not_found, Exec, pure, raise, lift, gets, modify, continue, ◌>>=◌, ◌>>◌,
}
use beacon_kit.Collections.{Collections}
use beacon_kit.Types.{BeaconBlockHeader, Eth1Data, Fork, ExecutionPayloadHeader}
use beacon_kit.Types.Validator.{Validator, is_active}

-- KVStore, less the codec that tells the decoder which fork a stored payload header has: headers
-- are stored whole here, so decoding gives back what was written.
pub record Kv (c : Collections) : Type 0 where
  pub genesis_validators_root : c.Item Bytes
  pub slot : c.Item ℕ
  pub fork : c.Item Fork
  pub latest_block_header : c.Item BeaconBlockHeader
  pub block_roots : c.Map Bytes
  pub state_roots : c.Map Bytes
  pub eth1_data : c.Item Eth1Data
  pub eth1_deposit_index : c.Item ℕ
  pub latest_execution_payload_version : c.Item ℕ
  pub latest_execution_payload_header : c.Item ExecutionPayloadHeader
  pub validator_index : c.Sequence
  pub validators : c.Registry
  pub balances : c.Map ℕ
  pub next_withdrawal_index : c.Item ℕ
  pub next_withdrawal_validator_index : c.Item ℕ
  pub randao_mix : c.Map Bytes
  pub slashings : c.Map ℕ
  pub total_slashing : c.Item ℕ

abbrev pub or_not_found : {A : Type 0} → Option A → Result A
or_not_found none = err not_found
or_not_found (some a) = ok a

abbrev pub or_zero : Option ℕ → ℕ
or_zero none = 0
or_zero (some n) = n

module _ {c : Collections} where
  -- versioning.go
  unfoldable pub set_genesis_validators_root : Bytes → Exec (Kv c) Unit
  set_genesis_validators_root root =
      modify λ kv. record kv { genesis_validators_root = c.write kv.genesis_validators_root root }

  unfoldable pub get_genesis_validators_root : Exec (Kv c) Bytes
  get_genesis_validators_root kv = (or_not_found (c.read kv.genesis_validators_root), kv)

  unfoldable pub get_slot : Exec (Kv c) ℕ
  get_slot kv = (or_not_found (c.read kv.slot), kv)

  unfoldable pub set_slot : ℕ → Exec (Kv c) Unit
  set_slot slot = modify λ kv. record kv { slot = c.write kv.slot slot }

  -- fork.go
  unfoldable pub set_fork : Fork → Exec (Kv c) Unit
  set_fork fork = modify λ kv. record kv { fork = c.write kv.fork fork }

  unfoldable pub get_fork : Exec (Kv c) Fork
  get_fork kv = (or_not_found (c.read kv.fork), kv)

  -- history.go
  unfoldable pub update_block_root_at_index : ℕ → Bytes → Exec (Kv c) Unit
  update_block_root_at_index index root =
      modify λ kv. record kv { block_roots = c.put kv.block_roots index root }

  unfoldable pub get_block_root_at_index : ℕ → Exec (Kv c) Bytes
  get_block_root_at_index index kv = (or_not_found (c.get kv.block_roots index), kv)

  unfoldable pub set_latest_block_header : BeaconBlockHeader → Exec (Kv c) Unit
  set_latest_block_header header =
      modify λ kv. record kv { latest_block_header = c.write kv.latest_block_header header }

  unfoldable pub get_latest_block_header : Exec (Kv c) BeaconBlockHeader
  get_latest_block_header kv = (or_not_found (c.read kv.latest_block_header), kv)

  unfoldable pub update_state_root_at_index : ℕ → Bytes → Exec (Kv c) Unit
  update_state_root_at_index index root =
      modify λ kv. record kv { state_roots = c.put kv.state_roots index root }

  unfoldable pub state_root_at_index : ℕ → Exec (Kv c) Bytes
  state_root_at_index index kv = (or_not_found (c.get kv.state_roots index), kv)

  -- eth1.go
  unfoldable pub get_latest_execution_payload_header : Exec (Kv c) ExecutionPayloadHeader
  get_latest_execution_payload_header = do
    fork_version ← λ kv. (or_not_found (c.read kv.latest_execution_payload_version), kv)
    λ kv. (or_not_found (c.read kv.latest_execution_payload_header), kv)

  unfoldable pub set_latest_execution_payload_header : ExecutionPayloadHeader → Exec (Kv c) Unit
  set_latest_execution_payload_header header = modify λ kv. record kv {
    latest_execution_payload_version = c.write kv.latest_execution_payload_version header.version;
    latest_execution_payload_header = c.write kv.latest_execution_payload_header header;
  }

  unfoldable pub get_eth1_deposit_index : Exec (Kv c) ℕ
  get_eth1_deposit_index kv = (or_not_found (c.read kv.eth1_deposit_index), kv)

  unfoldable pub set_eth1_deposit_index : ℕ → Exec (Kv c) Unit
  set_eth1_deposit_index index =
      modify λ kv. record kv { eth1_deposit_index = c.write kv.eth1_deposit_index index }

  unfoldable pub get_eth1_data : Exec (Kv c) Eth1Data
  get_eth1_data kv = (or_not_found (c.read kv.eth1_data), kv)

  unfoldable pub set_eth1_data : Eth1Data → Exec (Kv c) Unit
  set_eth1_data eth1 = modify λ kv. record kv { eth1_data = c.write kv.eth1_data eth1 }

  -- randao.go
  unfoldable pub update_randao_mix_at_index : ℕ → Bytes → Exec (Kv c) Unit
  update_randao_mix_at_index index mix =
      modify λ kv. record kv { randao_mix = c.put kv.randao_mix index mix }

  unfoldable pub get_randao_mix_at_index : ℕ → Exec (Kv c) Bytes
  get_randao_mix_at_index index kv = (or_not_found (c.get kv.randao_mix index), kv)

  -- slashing.go
  unfoldable pub get_slashings : Exec (Kv c) (List ℕ)
  get_slashings = gets λ kv. c.values kv.slashings

  unfoldable pub get_slashing_at_index : ℕ → Exec (Kv c) ℕ
  get_slashing_at_index index = gets λ kv. or_zero (c.get kv.slashings index)

  unfoldable pub set_slashing_at_index : ℕ → ℕ → Exec (Kv c) Unit
  set_slashing_at_index index amount =
      modify λ kv. record kv { slashings = c.put kv.slashings index amount }

  unfoldable pub get_total_slashing : Exec (Kv c) ℕ
  get_total_slashing = gets λ kv. or_zero (c.read kv.total_slashing)

  unfoldable pub set_total_slashing : ℕ → Exec (Kv c) Unit
  set_total_slashing amount =
      modify λ kv. record kv { total_slashing = c.write kv.total_slashing amount }

  -- withdrawals.go
  unfoldable pub get_next_withdrawal_index : Exec (Kv c) ℕ
  get_next_withdrawal_index kv = (or_not_found (c.read kv.next_withdrawal_index), kv)

  unfoldable pub set_next_withdrawal_index : ℕ → Exec (Kv c) Unit
  set_next_withdrawal_index index =
      modify λ kv. record kv { next_withdrawal_index = c.write kv.next_withdrawal_index index }

  unfoldable pub get_next_withdrawal_validator_index : Exec (Kv c) ℕ
  get_next_withdrawal_validator_index kv =
      (or_not_found (c.read kv.next_withdrawal_validator_index), kv)

  unfoldable pub set_next_withdrawal_validator_index : ℕ → Exec (Kv c) Unit
  set_next_withdrawal_validator_index index = modify λ kv. record kv {
    next_withdrawal_validator_index = c.write kv.next_withdrawal_validator_index index;
  }
