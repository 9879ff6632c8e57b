-- ===== src/Examples/Balances.antt =====
-- The theorems on balances, deposits and withdrawals, applied on the small chain.
use beacon_kit.StateDb.Sweep.Sound.{IsU64Balances, IsSwept, expected_withdrawals_sound}
use beacon_kit.StateDb.Balances.{balance_at}
use beacon_kit.StateDb.Sweep.{expected_withdrawals, sweep, next_withdrawal}
use beacon_kit.Processor.Withdrawals.{apply_withdrawals, process_withdrawals}
use beacon_kit.Types.{Deposit, equals}
use beacon_kit.Processor.Deposits.{add_validator_to_registry}
use beacon_kit.Processor.Epoch.{apply_deltas, process_slashings_reset}
use beacon_kit.StateDb.{update_slashing_at_index, decrease_balance}
use beacon_kit.Collections.Assoc.{assoc}
use beacon_kit.Prelude.{
  ℕ, zero, suc, ◌<◌, ◌∷◌, add64, bytes_eq, [], replicate, ◌≡◌, some, ◌++◌, arith, refl,
}
use beacon_kit.Example.{
  example_kv, example_processor, example_withdrawals, example_block, example_spec,
}
use beacon_kit.Exec.{ok}
use beacon_kit.Processor.Deposits.Registry.{new_validator_balance}
use beacon_kit.Processor.Withdrawals.Effects.{apply_withdrawals_effect}
use beacon_kit.Processor.Withdrawals.Cursors.{withdrawal_cursors}
use beacon_kit.Processor.Epoch.Rewards.{IsHeld, apply_deltas_effect}
use beacon_kit.Processor.Epoch.Reset.{process_slashings_reset_clears}
use beacon_kit.Chain.{slot_to_epoch}
use beacon_kit.StateDb.Slashings.{slashing_at, update_slashing-IsTotalled}

example_words : IsU64Balances {c = assoc} example_kv
example_words = record { at = λ i b e. ground arith }

held_at : (m : ℕ) → m < 2 → (b : ℕ) × (balance_at {c = assoc} example_kv m ≡ some b)
held_at zero h = (40, refl)
held_at (suc zero) h = (32, refl)
held_at (suc (suc m)) h = absurd (omega arith)

example-IsHeld : IsHeld {c = assoc} example_kv 0 2
example-IsHeld = record { at = λ m l h. held_at m h }

expected_withdrawals_sound_example : IsSwept {c = assoc} example_kv 2 6 0 example_withdrawals
unfolding expected_withdrawals sweep next_withdrawal
expected_withdrawals_sound_example =
    (expected_withdrawals_sound example_spec example_kv example_words 6 0 example_withdrawals
      example_kv (omega arith) refl refl refl).1

apply_withdrawals_effect_example :
    balance_at
      (apply_withdrawals {c = assoc} example_processor example_withdrawals example_withdrawals
        example_kv).1
      0
    ≡ some 32
unfolding apply_withdrawals decrease_balance equals
apply_withdrawals_effect_example =
    (apply_withdrawals_effect example_processor example_withdrawals example_withdrawals example_kv 0
      40 refl (omega arith) example_words refl refl).1

-- The payload is full, and the sweep goes on at validator 8 mod 2 = 0, the withdrawal index modulo
-- the registry's size.
withdrawal_cursors_example :
    assoc.read
      (process_withdrawals {c = assoc} example_processor example_block.body
        example_kv).1.next_withdrawal_validator_index
    ≡ some 0
unfolding process_withdrawals expected_withdrawals sweep next_withdrawal apply_withdrawals
    decrease_balance equals
withdrawal_cursors_example =
    (withdrawal_cursors example_processor example_block.body example_kv 6 0 example_withdrawals refl
      refl refl example_words (omega arith) (omega arith) (omega arith) refl).1

abbrev example_deposit : Deposit
example_deposit = record {
  pubkey = 12 ∷ [];
  credentials = 1 ∷ (replicate 11 0 ++ 12 ∷ []);
  amount = 10;
  signature = [];
  index = 5;
}

-- A deposit of 10 gives the new validator a balance of 18.
new_validator_balance_example :
    assoc.get
      (add_validator_to_registry {c = assoc} example_processor example_deposit
        example_kv).1.balances
      2
    ≡ some 18
unfolding add_validator_to_registry add64 bytes_eq
new_validator_balance_example =
    (new_validator_balance example_processor example_deposit example_kv
      (add_validator_to_registry {c = assoc} example_processor example_deposit example_kv).1 refl).0

-- The rewards 5 and 1 and the penalties 50 and 2, on the balances 40 and 32.
apply_deltas_effect_example :
    balance_at
      (apply_deltas {c = assoc} example_processor 0 (5 ∷ 1 ∷ []) (50 ∷ 2 ∷ []) example_kv).1
      1
    ≡ some 31
unfolding add64
apply_deltas_effect_example =
    (apply_deltas_effect {c = assoc} example_processor 0 (5 ∷ 1 ∷ []) (50 ∷ 2 ∷ []) example_kv refl
        example_words example-IsHeld).1
      1 32 refl

update_slashing-IsTotalled_example : (update_slashing_at_index {c = assoc} 2 0 example_kv).0 ≡ ok tt
update_slashing-IsTotalled_example =
    (update_slashing-IsTotalled {c = assoc} 3 2 0 example_kv refl (omega arith) (omega arith)).0

-- Slot 3 is in the epoch 1, and the place 2 of the vector is that of the epoch 2.
process_slashings_reset_clears_example :
    slashing_at (process_slashings_reset {c = assoc} example_processor example_kv).1 2 ≡ 0
unfolding slot_to_epoch
process_slashings_reset_clears_example =
    (process_slashings_reset_clears {c = assoc} example_processor 3 example_kv (omega arith) refl
        refl (omega arith)).2
      2
