-- ===== src/StateDb/Sweep.antt =====
-- StateDB.ExpectedWithdrawals.
pub mod Sound
use beacon_kit.Prelude.{
  ℕ, zero, suc, ◌/◌, ◌%◌, min, List, [], ◌∷◌, ◌==◌, if◌then◌else◌, add64, sub64,
}
use beacon_kit.Exec.{Exec, pure, lift, ◌>>=◌}
use beacon_kit.Chain.{ChainSpec}
use beacon_kit.Collections.{Collections}
use beacon_kit.Types.{Withdrawal}
use beacon_kit.Types.Validator.{
  Validator, to_execution_address, is_fully_withdrawable, is_partially_withdrawable,
}
use beacon_kit.BeaconDb.{
  Kv, get_slot, get_next_withdrawal_index, get_next_withdrawal_validator_index,
}
use beacon_kit.BeaconDb.Registry.{get_balance, validator_by_index, get_total_validators}

-- The amount that the sweep withdraws from a validator: zero where neither test passes.
unfoldable pub withdrawal_amount : ℕ → ℕ → Validator → ℕ → ℕ
unfolding is_fully_withdrawable is_partially_withdrawable sub64
withdrawal_amount max_effective epoch v balance =
    if is_fully_withdrawable v balance epoch
    then balance
    else if is_partially_withdrawable v balance max_effective
    then sub64 balance max_effective
    else 0

module _ {c : Collections} where
  -- The withdrawal of one turn of the loop.
  unfoldable pub next_withdrawal : ChainSpec → ℕ → ℕ → ℕ → Exec (Kv c) Withdrawal
  unfolding validator_by_index get_balance to_execution_address withdrawal_amount
  next_withdrawal cs epoch withdrawal_index validator_index = do
    v ← validator_by_index validator_index
    balance ← get_balance validator_index
    address ← lift (to_execution_address v.withdrawal_credentials)
    pure record {
      index = withdrawal_index;
      validator = validator_index;
      address = address;
      amount = withdrawal_amount cs.max_effective_balance epoch v balance;
    }

  -- The loop, over the turns left; `found` counts the withdrawals of the turns before.
  unfoldable pub sweep : ChainSpec → ℕ → ℕ → ℕ → ℕ → ℕ → ℕ → Exec (Kv c) (List Withdrawal)
  unfolding add64
  sweep cs epoch total zero found withdrawal_index validator_index = pure []
  sweep cs epoch total (suc turns) found withdrawal_index validator_index =
      let rest =
        sweep cs epoch total turns (suc found) (add64 withdrawal_index 1)
          (add64 validator_index 1 % total) in
      next_withdrawal cs epoch withdrawal_index validator_index >>= λ w.
      if suc found == cs.max_withdrawals_per_payload
      then pure (w ∷ [])
      else (rest >>= λ ws. pure (w ∷ ws))

  unfoldable pub expected_withdrawals : ChainSpec → Exec (Kv c) (List Withdrawal)
  unfolding get_slot get_next_withdrawal_index get_next_withdrawal_validator_index
      get_total_validators
  expected_withdrawals cs = do
    slot ← get_slot
    withdrawal_index ← get_next_withdrawal_index
    validator_index ← get_next_withdrawal_validator_index
    total ← get_total_validators
    sweep cs (slot / cs.slots_per_epoch) total (min cs.max_validators_per_withdrawals_sweep total) 0
        withdrawal_index validator_index
