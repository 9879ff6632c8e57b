-- ===== src/Processor/Withdrawals/Effects.antt =====
-- What an accepted list of withdrawals is, and what processing it does.
use beacon_kit.Prelude.{
  [], ◌∷◌, some, inl, inr, refl, ℕ, List, if◌then◌else◌, ◌≡◌, true, length, ◌==◌, ◌<◌, arith,
  u64_mod, ◌+◌, bytes_eq_iff, ◌-◌, Option-cases,
}
use beacon_kit.Types.{equals, Withdrawal}
use beacon_kit.Collections.{Collections}
use beacon_kit.Processor.{StateProcessor}
use beacon_kit.BeaconDb.{Kv}
use beacon_kit.Processor.Withdrawals.{apply_withdrawals}
use beacon_kit.StateDb.Sweep.Sound.{IsU64Balances}
use beacon_kit.StateDb.Balances.{balance_at, decrease_balance_saturates}
use beacon_kit.StateDb.{decrease_balance}
use beacon_kit.Exec.{ok}
use mathlib.Core.Path.{ap₂}

-- What the withdrawals take from one validator.
abbrev pub withdrawn : ℕ → List Withdrawal → ℕ
withdrawn j [] = 0
withdrawn j (w ∷ ws) = (if w.validator == j then w.amount else 0) + withdrawn j ws

equals_eq : (w p : Withdrawal) → equals w p ≡ true → w ≡ p
unfolding equals
equals_eq w p h = ground (arith, bytes_eq_iff w.address p.address)

module _ {c : Collections} (sp : StateProcessor) where
  -- One withdrawal of the loop.
  apply_one :
      (w : Withdrawal) (kv : Kv c) (j b : ℕ)
      → b < u64_mod
      → IsU64Balances kv
      → balance_at kv j ≡ some b
      → (decrease_balance w.validator w.amount kv).0 ≡ ok tt
      → (balance_at (decrease_balance w.validator w.amount kv).1 j
          ≡ some (b - (if w.validator == j then w.amount else 0)))
        × IsU64Balances (decrease_balance w.validator w.amount kv).1
  apply_one w kv j b l words e h = elim (Option-cases (balance_at kv w.validator)) [
    | inl none_at ↦ absurd (unfold decrease_balance in ground arith)
    | inr (a, at) ↦
        let la = words.at w.validator a at in
        (
          ground (arith, decrease_balance_saturates kv w.validator w.amount a at la j),
          record {
            at = λ i x q.
                ground (
                  arith,
                  words.at i x,
                  decrease_balance_saturates kv w.validator w.amount a at la i,
                );
          },
        )
  ]

  -- What the first turn of a successful loop passed.
  apply_step :
      (w p : Withdrawal) (ws ps : List Withdrawal) (kv : Kv c)
      → (apply_withdrawals sp (w ∷ ws) (p ∷ ps) kv).0 ≡ ok tt
      → (equals w p ≡ true)
        × ((decrease_balance w.validator w.amount kv).0 ≡ ok tt)
        × ((apply_withdrawals sp ws ps (decrease_balance w.validator w.amount kv).1).0 ≡ ok tt)
  unfolding apply_withdrawals
  apply_step w p ws ps kv h = ground arith

  -- On two lists of equal length and a state with uint64 balances: the loop runs to its end only if
  -- the payload's withdrawals are the expected ones; each balance then falls by what the
  -- withdrawals take from its validator, and stops at zero.
  pub apply_withdrawals_effect :
      (expected payload : List Withdrawal) (kv : Kv c) (j b : ℕ)
      → length expected ≡ length payload
      → b < u64_mod
      → IsU64Balances kv
      → balance_at kv j ≡ some b
      → (apply_withdrawals sp expected payload kv).0 ≡ ok tt
      → (expected ≡ payload)
        × (balance_at (apply_withdrawals sp expected payload kv).1 j
            ≡ some (b - withdrawn j expected))
  unfolding apply_withdrawals
  apply_withdrawals_effect [] [] kv j b n l words e h = (refl, ground arith)
  apply_withdrawals_effect [] (p ∷ ps) kv j b n l words e h = absurd (omega arith)
  apply_withdrawals_effect (w ∷ ws) [] kv j b n l words e h = absurd (omega arith)
  apply_withdrawals_effect (w ∷ ws) (p ∷ ps) kv j b n l words e h =
      let after = (decrease_balance w.validator w.amount kv).1 in
      let (same, done, rest) = apply_step w p ws ps kv h in
      let (bal, words') = apply_one w kv j b l words e done in
      let taken = (if w.validator == j then w.amount else 0) in
      let (same', bal') =
        apply_withdrawals_effect ws ps after j (b - taken) (omega arith) (omega arith) words' bal
          rest in
      (
        ap₂ (◌∷◌) (equals_eq w p same) same',
        ground (
          arith,
          (let q : b - taken - withdrawn j ws ≡ b - (taken + withdrawn j ws) = omega arith in q),
        ),
      )
