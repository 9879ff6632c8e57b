-- ===== src/Chain.antt =====
-- mod/primitives/pkg/chain: the chain specification, and the conversions that depend on it.
pub mod Epochs
use beacon_kit.Prelude.{ℕ, ◌<◌, ◌/◌, Bool, Bytes, leb, if◌then◌else◌, add64}

-- SpecData, less the fields that no modelled function reads. Go panics when it divides by the number
-- of slots of an epoch, the length of one of the two vectors of epochs, or the increment of effective
-- balances, and that is zero: a specification of this type has none of them zero, as those of
-- mod/node-core/pkg/config/spec.
pub record ChainSpec : Type 0 where
  pub max_effective_balance : ℕ
  pub effective_balance_increment : ℕ
  pub slots_per_epoch : ℕ
  pub target_seconds_per_eth1_block : ℕ
  pub slots_per_historical_root : ℕ
  pub domain_type_randao : Bytes
  pub domain_type_deposit : Bytes
  pub max_deposits_per_block : ℕ
  pub electra_fork_epoch : ℕ
  pub epochs_per_historical_vector : ℕ
  pub epochs_per_slashings_vector : ℕ
  pub historical_roots_limit : ℕ
  pub proportional_slashing_multiplier : ℕ
  pub max_withdrawals_per_payload : ℕ
  pub max_validators_per_withdrawals_sweep : ℕ
  pub min_epochs_for_blobs_sidecars_request : ℕ
  pub max_blob_commitments_per_block : ℕ
  pub max_blobs_per_block : ℕ
  pub effective_balance_increment_positive : 0 < effective_balance_increment
  pub slots_per_epoch_positive : 0 < slots_per_epoch
  pub epochs_per_historical_vector_positive : 0 < epochs_per_historical_vector
  pub epochs_per_slashings_vector_positive : 0 < epochs_per_slashings_vector

-- The constants of mod/primitives/pkg/version.
abbrev pub version_capella : ℕ
version_capella = 3

abbrev pub version_deneb : ℕ
version_deneb = 4

abbrev pub version_electra : ℕ
version_electra = 5

-- SlotToEpoch
unfoldable pub slot_to_epoch : ChainSpec → ℕ → ℕ
slot_to_epoch cs slot = slot / cs.slots_per_epoch

unfoldable pub active_fork_version_for_epoch : ChainSpec → ℕ → ℕ
active_fork_version_for_epoch cs epoch =
    if leb cs.electra_fork_epoch epoch then version_electra else version_deneb

unfoldable pub active_fork_version_for_slot : ChainSpec → ℕ → ℕ
unfolding active_fork_version_for_epoch slot_to_epoch
active_fork_version_for_slot cs slot = active_fork_version_for_epoch cs (slot_to_epoch cs slot)

unfoldable pub within_da_period : ChainSpec → ℕ → ℕ → Bool
unfolding slot_to_epoch add64
within_da_period cs block current =
    leb (slot_to_epoch cs current)
      (add64 (slot_to_epoch cs block) cs.min_epochs_for_blobs_sidecars_request)
