-- ===== src/Processor/Withdrawals/Cursors.antt =====
-- The two cursors of the withdrawal sweep after a block.
use beacon_kit.Prelude.{
  [], ◌∷◌, some, none, inl, inr, refl, List, ℕ, ◌<◌, length, ◌+◌, ◌≡◌, arith, get_last?, u64_mod,
  ◌≢◌, add64, add64_eq, if◌then◌else◌, ◌==◌, ◌%◌, Option-cases,
}
use beacon_kit.Collections.{Collections}
use beacon_kit.Processor.{StateProcessor}
use beacon_kit.Types.{Withdrawal, BeaconBlockBody}
use beacon_kit.BeaconDb.{Kv}
use beacon_kit.Processor.Withdrawals.{apply_withdrawals, process_withdrawals}
use beacon_kit.StateDb.{decrease_balance}
use beacon_kit.StateDb.Sweep.{expected_withdrawals}
use beacon_kit.StateDb.Sweep.Sound.{IsSwept, IsU64Balances, expected_withdrawals_sound}
use beacon_kit.Exec.{ok}

module _ {c : Collections} (sp : StateProcessor) where
  -- The loop over the withdrawals leaves the cursors and the registry.
  apply_withdrawals_frame :
      (ws ps : List Withdrawal) (kv : Kv c)
      → ((apply_withdrawals sp ws ps kv).1.next_withdrawal_index ≡ kv.next_withdrawal_index)
        × ((apply_withdrawals sp ws ps kv).1.next_withdrawal_validator_index
            ≡ kv.next_withdrawal_validator_index)
        × ((apply_withdrawals sp ws ps kv).1.validators ≡ kv.validators)
  unfolding apply_withdrawals decrease_balance
  apply_withdrawals_frame [] ps kv = (refl, refl, refl)
  apply_withdrawals_frame (w ∷ ws) [] kv = (refl, refl, refl)
  apply_withdrawals_frame (w ∷ ws) (p ∷ ps) kv =
      ground (arith, apply_withdrawals_frame ws ps (decrease_balance w.validator w.amount kv).1)

get_last-some : (ws : List Withdrawal) → 0 < length ws → get_last? ws ≢ none
get_last-some [] l e = elim l [ ]
get_last-some (x ∷ []) l e = cc
get_last-some (x ∷ y ∷ ws) l e = get_last-some (y ∷ ws) (omega arith) e

-- The last withdrawal of a sweep is numbered by the length of the sweep.
last_index :
    {c : Collections} (kv : Kv c) (total i v : ℕ) (ws : List Withdrawal) (w : Withdrawal)
    → i + length ws < u64_mod
    → IsSwept kv total i v ws
    → get_last? ws ≡ some w
    → add64 w.index 1 ≡ i + length ws
last_index kv total i v [] w l s e = cc
last_index kv total i v (x ∷ []) w l s e = ground (arith, add64_eq i 1)
last_index kv total i v (x ∷ y ∷ ws) w l s e =
    ground (arith, add64_eq i 1, last_index kv total (add64 i 1) (add64 v 1 % total) (y ∷ ws) w)

module _ {c : Collections} (sp : StateProcessor) (body : BeaconBlockBody) (kv : Kv c) (i v : ℕ)
    (ws : List Withdrawal) (index : c.read kv.next_withdrawal_index ≡ some i)
    (next : c.read kv.next_withdrawal_validator_index ≡ some v)
    (expected : expected_withdrawals sp.cs kv ≡ (ok ws, kv)) (words : IsU64Balances kv)
    (room : 0 < sp.cs.max_withdrawals_per_payload) (l : i + length ws < u64_mod) where
  -- On a state with uint64 balances and both cursors, with a payload limit above zero, if the
  -- expected withdrawals are computed, there is at least one, their indices stay below 2^64, and
  -- processWithdrawals succeeds: the next withdrawal index has moved by the number of withdrawals.
  -- After a payload that is not full, the next validator index has moved by the length of a sweep,
  -- round the registry. After a full one it is the next withdrawal index, round the registry: the
  -- source takes the index of the last withdrawal for the index of its validator.
  pub withdrawal_cursors :
      0 < length ws
      → (process_withdrawals sp body kv).0 ≡ ok tt
      → let total = length (c.validators kv.validators) in
        let kv' = (process_withdrawals sp body kv).1 in
        (c.read kv'.next_withdrawal_index ≡ some (i + length ws))
        × (c.read kv'.next_withdrawal_validator_index
            ≡ some (
                if length ws == sp.cs.max_withdrawals_per_payload
                then (i + length ws) % total
                else add64 v sp.cs.max_validators_per_withdrawals_sweep % total))
  unfolding process_withdrawals
  withdrawal_cursors pos h = elim (Option-cases (get_last? ws)) [
    | inl e ↦ absurd (get_last-some ws pos e)
    | inr (w, e) ↦
        let (same, swept, few, short, fits) =
          expected_withdrawals_sound sp.cs kv words i v ws kv room index next expected in
        let after = (apply_withdrawals sp ws body.execution_payload.withdrawals kv).1 in
        ground (
          arith,
          last_index kv (length (c.validators kv.validators)) i v ws w l swept e,
          apply_withdrawals_frame sp ws body.execution_payload.withdrawals kv,
          c.read-write after.next_withdrawal_index (add64 w.index 1),
          c.read-write after.next_withdrawal_validator_index
              ((i + length ws) % length (c.validators kv.validators)),
          c.read-write after.next_withdrawal_validator_index (
              add64 v sp.cs.max_validators_per_withdrawals_sweep
              % length (c.validators kv.validators)),
        )
  ]
