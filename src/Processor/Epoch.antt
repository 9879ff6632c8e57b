-- ===== src/Processor/Epoch.antt =====
-- processEpoch and its parts: state_processor.go, state_processor_slashing.go and
-- state_processor_committee.go.
pub mod Rewards
pub mod Reset
use beacon_kit.Prelude.{
  ℕ, suc, ◌/◌, ◌%◌, ◌==◌, List, [], ◌∷◌, not, if◌then◌else◌, length, replicate, add64, mul64,
}
use beacon_kit.Exec.{
  ok, Exec, pure, raise, lift, ◌>>=◌, ◌>>◌, rewards_length_mismatch, divide,
  penalties_length_mismatch,
}
use beacon_kit.Chain.{slot_to_epoch}
use beacon_kit.Collections.{Collections}
use beacon_kit.Types.{ValidatorUpdate}
use beacon_kit.Types.Validator.{Validator}
use beacon_kit.BeaconDb.{Kv, get_slot}
use beacon_kit.BeaconDb.Registry.{
  get_validators, get_validators_by_effective_balance, validator_index_by_pubkey,
}
use beacon_kit.StateDb.{increase_balance, decrease_balance, update_slashing_at_index}
use beacon_kit.Processor.{StateProcessor}
use beacon_kit.Processor.Randao.{process_randao_mixes_reset}

-- The update that processSyncCommitteeUpdates makes of a validator; it never fails.
unfoldable pub validator_update : Validator → ValidatorUpdate
validator_update v = record { pubkey = v.pubkey; effective_balance = v.effective_balance }

module _ {c : Collections} (sp : StateProcessor) where
  -- A placeholder in the source too: the same zeros, one for each validator, as both results.
  unfoldable pub get_attestation_deltas : Exec (Kv c) (List ℕ × List ℕ)
  unfolding get_validators
  get_attestation_deltas = do
    vals ← get_validators
    let placeholder = replicate (length vals) 0
    pure (placeholder, placeholder)

  -- The loop over the validators, from index `i` on.
  unfoldable pub apply_deltas : ℕ → List ℕ → List ℕ → Exec (Kv c) Unit
  unfolding increase_balance decrease_balance
  apply_deltas i [] penalties = pure tt
  apply_deltas i (r ∷ rs) [] = pure tt
  apply_deltas i (r ∷ rs) (p ∷ ps) =
      increase_balance i r >> (decrease_balance i p >> apply_deltas (suc i) rs ps)

  unfoldable pub process_rewards_and_penalties : Exec (Kv c) Unit
  unfolding get_slot slot_to_epoch get_attestation_deltas get_validators
  process_rewards_and_penalties = do
    slot ← get_slot
    if slot_to_epoch sp.cs slot == 0 then pure tt else do
      (rewards, penalties) ← get_attestation_deltas
      vals ← get_validators
      if not (length vals == length rewards)
          then raise rewards_length_mismatch
          else if not (length vals == length penalties)
          then raise penalties_length_mismatch
          else apply_deltas 0 rewards penalties

  unfoldable pub process_slashings_reset : Exec (Kv c) Unit
  unfolding get_slot slot_to_epoch update_slashing_at_index add64
  process_slashings_reset = do
    slot ← get_slot
    update_slashing_at_index
        (add64 (slot_to_epoch sp.cs slot) 1 % sp.cs.epochs_per_slashings_vector) 0

  unfoldable pub process_sync_committee_updates : Exec (Kv c) (List ValidatorUpdate)
  unfolding get_validators_by_effective_balance validator_update
  process_sync_committee_updates = do
    vals ← get_validators_by_effective_balance
    lift (sp.map_err (λ v. ok (validator_update v)) vals)

  unfoldable pub process_epoch : Exec (Kv c) (List ValidatorUpdate)
  unfolding process_rewards_and_penalties process_slashings_reset process_randao_mixes_reset
      process_sync_committee_updates
  process_epoch = do
    process_rewards_and_penalties
    process_slashings_reset
    process_randao_mixes_reset sp
    process_sync_committee_updates

  -- processSlash, which no code calls yet.
  unfoldable pub process_slash : Validator → ℕ → ℕ → Exec (Kv c) Unit
  unfolding validator_index_by_pubkey decrease_balance mul64
  process_slash v adjusted_total_slashing total_balance = do
    let increment = sp.cs.effective_balance_increment
    let numerator = mul64 (v.effective_balance / increment) adjusted_total_slashing
    quotient ← lift (divide numerator total_balance)
    let penalty = mul64 quotient increment
    idx ← validator_index_by_pubkey v.pubkey
    decrease_balance idx penalty
