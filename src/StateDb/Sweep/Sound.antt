-- ===== src/StateDb/Sweep/Sound.antt =====
-- What the list of expected withdrawals is.
use beacon_kit.Collections.{Collections}
use beacon_kit.StateDb.Sweep.{
  withdrawal_amount, Kv, ℕ, ChainSpec, List, Validator, next_withdrawal, sweep, Withdrawal,
  expected_withdrawals,
}
use beacon_kit.StateDb.Balances.{balance_at}
use beacon_kit.Prelude.{
  ◌<◌, ◌≡◌, ◌∷◌, u64_mod, some, ◌≤◌, add64, arith, sub64_eq, ◌%◌, [], zero, suc, length, ◌+◌, inl,
  inr, Option-cases, ◌/◌, min, true, false, Bool, ◌∙◌, if◌then◌else◌, ◌⊎◌, refl,
}
use beacon_kit.Exec.{ok, Exec, pure, ◌>>=◌}
use beacon_kit.Exec.Success.{>>=-Succeeds, Succeeds}

-- The withdrawals of a sweep from a withdrawal index and a validator index: the indices count up,
-- the validators go round, and no amount is above the balance of its validator.
abbrev pub IsSwept :
    {c : Collections}
    → Kv c
    → (total withdrawal_index validator_index : ℕ) → List Withdrawal
    → Type 0
IsSwept kv total i v [] = Unit {0}
IsSwept {c} kv total i v (w ∷ ws) =
    (w.index ≡ i)
    × (w.validator ≡ v)
    × ((b : ℕ) × (balance_at kv v ≡ some b) × (w.amount ≤ b))
    × IsSwept kv total (add64 i 1) (add64 v 1 % total) ws

-- A withdrawal never takes more than the balance.
pub withdrawal_amount_le :
    (max_effective epoch : ℕ) (v : Validator) (b : ℕ)
    → b < u64_mod
    → withdrawal_amount max_effective epoch v b ≤ b
unfolding withdrawal_amount
withdrawal_amount_le max_effective epoch v b l = ground (arith, sub64_eq b max_effective)

-- Every stored balance is a uint64.
pub record IsU64Balances {c : Collections} (kv : Kv c) : Type 0 where
  pub at : (i b : ℕ) → balance_at kv i ≡ some b → b < u64_mod

module _ {c : Collections} (cs : ChainSpec) (kv : Kv c) (words : IsU64Balances kv) where
  next_withdrawal_sound :
      (epoch i v : ℕ) (w : Withdrawal) (kv' : Kv c)
      → next_withdrawal cs epoch i v kv ≡ (ok w, kv')
      → (kv' ≡ kv)
        × (w.index ≡ i)
        × (w.validator ≡ v)
        × ((b : ℕ) × (balance_at kv v ≡ some b) × (w.amount ≤ b))
  unfolding next_withdrawal
  next_withdrawal_sound epoch i v w kv' h = elim (Option-cases (balance_at kv v)) [
    | inl e ↦ absurd (ground arith)
    | inr (b, e) ↦ (
      ground arith,
      ground arith,
      ground arith,
      (
        b,
        e,
        ground (
          arith,
          words.at v b e,
          (λ (val : Validator). withdrawal_amount_le cs.max_effective_balance epoch val b),
        ),
      ),
    )
  ]

  -- The end of a turn: the list is full, or the sweep goes on.
  turn_cases :
      (full : Bool) (rest : Exec (Kv c) (List Withdrawal)) (w : Withdrawal) (kv1 : Kv c)
      (ws : List Withdrawal) (kv' : Kv c)
      → (if full then pure (w ∷ []) else (rest >>= λ more. pure (w ∷ more))) kv1 ≡ (ok ws, kv')
      → ((full ≡ true) × (ws ≡ w ∷ []) × (kv' ≡ kv1))
        ⊎ ((full ≡ false)
            × ((more : List Withdrawal) × Succeeds rest kv1 more kv' × (ws ≡ w ∷ more)))
  turn_cases true rest w kv1 ws kv' h = inl (refl, ground arith, ground arith)
  turn_cases false rest w kv1 ws kv' h =
      let (more, kv2, h1, h2) = >>=-Succeeds rest _ kv1 ws kv' h in
      inr (refl, (more, ground arith, ground arith))

  sweep_sound :
      (epoch total turns found i v : ℕ) (ws : List Withdrawal) (kv' : Kv c)
      → found < cs.max_withdrawals_per_payload
      → sweep cs epoch total turns found i v kv ≡ (ok ws, kv')
      → (kv' ≡ kv)
        × IsSwept kv total i v ws
        × (length ws ≤ turns)
        × (found + length ws ≤ cs.max_withdrawals_per_payload)
  unfolding sweep
  sweep_sound epoch total zero found i v ws kv' l h = ground arith
  sweep_sound epoch total (suc turns) found i v ws kv' l h =
      let (w, kv1, h1, h2) = >>=-Succeeds (next_withdrawal cs epoch i v) _ kv ws kv' h in
      let (same, index, validator, amount) = next_withdrawal_sound epoch i v w kv1 h1 in
      elim (turn_cases _ (sweep cs epoch total turns (suc found) (add64 i 1) (add64 v 1 % total)) w
        kv1 ws kv' h2) [
          | inl (full, e, back) ↦
              rw e (back ∙ same, (index, validator, amount, tt), omega arith, ground arith)
          | inr (room, (more, h3, e)) ↦
              let (back, swept, few, fits) =
                sweep_sound epoch total turns (suc found) (add64 i 1) (add64 v 1 % total) more kv'
                  (ground arith) (cc) in
              rw e (back, (index, validator, amount, swept), omega arith, omega arith)
        ]

  -- On a state with uint64 balances and both cursors, and with a payload limit above zero: a
  -- successful call changes nothing and returns a sweep from the cursors, of consecutive indices
  -- and validators, with no amount above the balance of its validator: at most one withdrawal for
  -- each validator, at most the length of a sweep, and at most what a payload holds.
  pub expected_withdrawals_sound :
      (i v : ℕ) (ws : List Withdrawal) (kv' : Kv c)
      → 0 < cs.max_withdrawals_per_payload
      → c.read kv.next_withdrawal_index ≡ some i
      → c.read kv.next_withdrawal_validator_index ≡ some v
      → expected_withdrawals cs kv ≡ (ok ws, kv')
      → (kv' ≡ kv)
        × IsSwept kv (length (c.validators kv.validators)) i v ws
        × (length ws ≤ length (c.validators kv.validators))
        × (length ws ≤ cs.max_validators_per_withdrawals_sweep)
        × (length ws ≤ cs.max_withdrawals_per_payload)
  unfolding expected_withdrawals
  expected_withdrawals_sound i v ws kv' pos ri rv h = elim (Option-cases (c.read kv.slot)) [
    | inl e ↦ absurd (ground arith)
    | inr (s, e) ↦
        let total = length (c.validators kv.validators) in
        let (same, swept, few, fits) =
          sweep_sound (s / cs.slots_per_epoch) total
            (min cs.max_validators_per_withdrawals_sweep total) 0 i v ws kv' pos (ground arith) in
        (same, swept, omega arith, omega arith, omega arith)
  ]
