-- ===== src/StateDb.antt =====
-- mod/state-transition/pkg/core/state/statedb.go: StateDB, over the store of BeaconDb.
pub mod Slashings
pub mod Sweep
pub mod Hashing
pub mod Balances
use beacon_kit.Prelude.{
  ℕ, zero, ◌+◌, ◌-◌, ◌/◌, ◌%◌, min, List, Option, none, some, Bytes, ltb, if◌then◌else◌, add64,
  sub64, ◌==◌,
}
use beacon_kit.Exec.{
  Result, Error, total_slashing_not_up_to_date, Exec, pure, raise, lift, gets, collect, continue,
  ◌>>=◌, ◌>>◌, ok, err, unsupported_fork_version,
}
use beacon_kit.Chain.{ChainSpec, slot_to_epoch, active_fork_version_for_slot, version_deneb}
use beacon_kit.Collections.{Collections}
use beacon_kit.Types.{BeaconBlockHeader, Eth1Data, Fork, ExecutionPayloadHeader}
use beacon_kit.Types.Validator.{Validator}
use beacon_kit.BeaconDb.{
  Kv, get_slot, get_fork, get_genesis_validators_root, get_latest_block_header,
  get_block_root_at_index, state_root_at_index, get_latest_execution_payload_header, get_eth1_data,
  get_eth1_deposit_index, get_randao_mix_at_index, get_next_withdrawal_index,
  get_next_withdrawal_validator_index, get_slashings, get_total_slashing, set_total_slashing,
  get_slashing_at_index, set_slashing_at_index,
}
use beacon_kit.BeaconDb.Registry.{get_balance, set_balance, get_validators, get_balances}

-- What state.BeaconState.New puts together for hashing, with the fork version it is asked for.
pub record StateView : Type 0 where
  pub fork_version : ℕ
  pub genesis_validators_root : Bytes
  pub slot : ℕ
  pub fork : Fork
  pub latest_block_header : BeaconBlockHeader
  pub block_roots : List Bytes
  pub state_roots : List Bytes
  pub eth1_data : Eth1Data
  pub eth1_deposit_index : ℕ
  pub latest_execution_payload_header : ExecutionPayloadHeader
  pub validators : List Validator
  pub balances : List ℕ
  pub randao_mixes : List Bytes
  pub next_withdrawal_index : ℕ
  pub next_withdrawal_validator_index : ℕ
  pub slashings : List ℕ
  pub total_slashing : ℕ

-- state.BeaconState.New: only the Deneb state can be built.
unfoldable pub new_state : StateView → Result StateView
new_state view =
    if view.fork_version == version_deneb then ok view else err unsupported_fork_version

module _ {c : Collections} where
  unfoldable pub increase_balance : ℕ → ℕ → Exec (Kv c) Unit
  unfolding get_balance set_balance add64
  increase_balance idx delta = do balance ← get_balance idx; set_balance idx (add64 balance delta)

  unfoldable pub decrease_balance : ℕ → ℕ → Exec (Kv c) Unit
  unfolding get_balance set_balance sub64
  decrease_balance idx delta = do
    balance ← get_balance idx
    set_balance idx (sub64 balance (min balance delta))

  unfoldable pub update_slashing_at_index : ℕ → ℕ → Exec (Kv c) Unit
  unfolding get_total_slashing get_slashing_at_index set_total_slashing set_slashing_at_index add64
      sub64
  update_slashing_at_index index amount = do
    total ← get_total_slashing
    old_value ← get_slashing_at_index index
    if ltb total old_value then raise total_slashing_not_up_to_date else do
      set_total_slashing (add64 (sub64 total old_value) amount)
      set_slashing_at_index index amount

  -- HashTreeRoot reads the whole state; `state_root` is the SSZ hashing of what it read.
  unfoldable pub read_state : ChainSpec → Exec (Kv c) StateView
  unfolding get_slot get_fork get_genesis_validators_root get_latest_block_header
      get_latest_execution_payload_header get_eth1_data get_eth1_deposit_index get_validators
      get_balances get_next_withdrawal_index get_next_withdrawal_validator_index get_slashings
      get_total_slashing active_fork_version_for_slot
  read_state cs = do
    slot ← get_slot
    fork ← get_fork
    genesis_root ← get_genesis_validators_root
    header ← get_latest_block_header
    block_roots ← collect get_block_root_at_index 0 cs.slots_per_historical_root
    state_roots ← collect state_root_at_index 0 cs.slots_per_historical_root
    payload_header ← get_latest_execution_payload_header
    eth1 ← get_eth1_data
    deposit_index ← get_eth1_deposit_index
    vals ← get_validators
    bals ← get_balances
    mixes ← collect get_randao_mix_at_index 0 cs.epochs_per_historical_vector
    withdrawal_index ← get_next_withdrawal_index
    withdrawal_validator ← get_next_withdrawal_validator_index
    slashings ← get_slashings
    total ← get_total_slashing
    pure record {
      fork_version = active_fork_version_for_slot cs slot;
      genesis_validators_root = genesis_root;
      slot = slot;
      fork = fork;
      latest_block_header = header;
      block_roots = block_roots;
      state_roots = state_roots;
      eth1_data = eth1;
      eth1_deposit_index = deposit_index;
      latest_execution_payload_header = payload_header;
      validators = vals;
      balances = bals;
      randao_mixes = mixes;
      next_withdrawal_index = withdrawal_index;
      next_withdrawal_validator_index = withdrawal_validator;
      slashings = slashings;
      total_slashing = total;
    }

  unfoldable pub hash_tree_root : (StateView → Result Bytes) → ChainSpec → Exec (Kv c) Bytes
  hash_tree_root state_root cs = do
    view ← read_state cs
    built ← lift (new_state view)
    lift (state_root built)
