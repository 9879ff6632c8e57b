-- ===== src/StateDb/Hashing.antt =====
-- HashTreeRoot reads the state and does not change it.
use beacon_kit.Prelude.{ℕ, arith, Bytes}
use beacon_kit.Exec.Reads.{IsReader, IsReader-result, IsReader-collect}
use beacon_kit.Chain.{ChainSpec}
use beacon_kit.Collections.{Collections}
use beacon_kit.BeaconDb.{get_block_root_at_index, state_root_at_index, get_randao_mix_at_index}
use beacon_kit.StateDb.{read_state, hash_tree_root, StateView}
use beacon_kit.Exec.{Result}

module _ {c : Collections} where
  block_root_IsReader : (i : ℕ) → IsReader (get_block_root_at_index {c = c} i)
  unfolding get_block_root_at_index
  block_root_IsReader i = IsReader-result _

  state_root_IsReader : (i : ℕ) → IsReader (state_root_at_index {c = c} i)
  unfolding state_root_at_index
  state_root_IsReader i = IsReader-result _

  mix_IsReader : (i : ℕ) → IsReader (get_randao_mix_at_index {c = c} i)
  unfolding get_randao_mix_at_index
  mix_IsReader i = IsReader-result _

  read_state-IsReader : (cs : ChainSpec) → IsReader (read_state {c = c} cs)
  unfolding read_state
  read_state-IsReader cs = record {
    at = λ kv. ground (
      arith,
      (IsReader-collect get_block_root_at_index 0 cs.slots_per_historical_root
            block_root_IsReader).at
          kv,
      (IsReader-collect state_root_at_index 0 cs.slots_per_historical_root state_root_IsReader).at
          kv,
      (IsReader-collect get_randao_mix_at_index 0 cs.epochs_per_historical_vector mix_IsReader).at
          kv,
    );
  }

  pub hash_tree_root-IsReader :
      (state_root : StateView → Result Bytes) (cs : ChainSpec)
      → IsReader (hash_tree_root {c = c} state_root cs)
  unfolding hash_tree_root
  hash_tree_root-IsReader state_root cs = record {
    at = λ kv. ground (arith, (read_state-IsReader cs).at kv);
  }
