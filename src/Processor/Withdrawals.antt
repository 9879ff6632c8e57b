-- ===== src/Processor/Withdrawals.antt =====
-- processWithdrawals of state_processor_staking.go.
pub mod Cursors
pub mod Effects
use beacon_kit.Prelude.{
  ℕ, ◌==◌, List, [], ◌∷◌, Option, none, some, not, if◌then◌else◌, length, get_last?, add64,
}
use beacon_kit.Exec.{
  Exec, pure, raise, lift, panic, modulo, ◌>>=◌, ◌>>◌, withdrawals_length_mismatch,
  withdrawals_mismatch,
}
use beacon_kit.Collections.{Collections}
use beacon_kit.Types.{Withdrawal, BeaconBlockBody, equals}
use beacon_kit.BeaconDb.{
  Kv, set_next_withdrawal_index, get_next_withdrawal_validator_index,
  set_next_withdrawal_validator_index,
}
use beacon_kit.BeaconDb.Registry.{get_total_validators}
use beacon_kit.StateDb.{decrease_balance}
use beacon_kit.StateDb.Sweep.{expected_withdrawals}
use beacon_kit.Processor.{StateProcessor}

module _ {c : Collections} (sp : StateProcessor) where
  -- The loop over the expected withdrawals, next to those of the payload. The lengths are equal
  -- when it is called; an index out of range would be a panic.
  unfoldable pub apply_withdrawals : List Withdrawal → List Withdrawal → Exec (Kv c) Unit
  apply_withdrawals [] payload = pure tt
  apply_withdrawals (w ∷ ws) [] = raise withdrawals_mismatch
  apply_withdrawals (w ∷ ws) (p ∷ ps) =
      let rest = apply_withdrawals ws ps in
      if not (equals w p)
      then raise withdrawals_mismatch
      else (decrease_balance w.validator w.amount >> rest)

  -- if numWithdrawals != 0
  unfoldable pub bump_withdrawal_index : Option Withdrawal → Exec (Kv c) Unit
  unfolding set_next_withdrawal_index add64
  bump_withdrawal_index none = pure tt
  bump_withdrawal_index (some w) = set_next_withdrawal_index (add64 w.index 1)

  -- The next validator of the sweep. After a full payload the source takes it from the index of the
  -- last withdrawal, not from that withdrawal's validator.
  unfoldable pub next_sweep_index : List Withdrawal → ℕ → Exec (Kv c) ℕ
  unfolding get_next_withdrawal_validator_index add64
  next_sweep_index expected total =
      if length expected == sp.cs.max_withdrawals_per_payload
      then elim (get_last? expected) [
        | none ↦ raise panic
        | some w ↦ lift (modulo (add64 w.index 1) total)
      ]
      else (get_next_withdrawal_validator_index >>= λ next.
          lift (modulo (add64 next sp.cs.max_validators_per_withdrawals_sweep) total))

  unfoldable pub process_withdrawals : BeaconBlockBody → Exec (Kv c) Unit
  unfolding bump_withdrawal_index get_total_validators next_sweep_index
      set_next_withdrawal_validator_index
  process_withdrawals body = do
    expected ← expected_withdrawals sp.cs
    if not (length expected == length body.execution_payload.withdrawals)
        then raise withdrawals_length_mismatch
        else do
          apply_withdrawals expected body.execution_payload.withdrawals
          bump_withdrawal_index (get_last? expected)
          total ← get_total_validators
          next ← next_sweep_index expected total
          set_next_withdrawal_validator_index next
