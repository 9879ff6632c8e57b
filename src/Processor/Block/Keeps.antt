-- ===== src/Processor/Block/Keeps.antt =====
-- The fields of the store that the later steps of a block leave alone.
use beacon_kit.Prelude.{zero, suc, [], ◌∷◌, refl}
use beacon_kit.Exec.{Exec, for_each}
use beacon_kit.Collections.{Collections}
use beacon_kit.BeaconDb.{Kv}
use beacon_kit.Processor.{StateProcessor}
use beacon_kit.Prelude.{List, ◌≡◌, ◌∷◌, ℕ, arith, suc, Bool, [], add64, ◌%◌}
use beacon_kit.StateDb.Sweep.{next_withdrawal, sweep, expected_withdrawals}
use beacon_kit.Processor.Withdrawals.{apply_withdrawals, process_withdrawals}
use beacon_kit.Processor.Randao.{process_randao_reveal, verify_randao_reveal}
use beacon_kit.Processor.Deposits.{
  process_deposit, process_operations, apply_deposit, process_deposits,
}
use beacon_kit.Chain.{ChainSpec}
use beacon_kit.Types.{BeaconBlockBody, Withdrawal, BeaconBlock, Deposit}
use beacon_kit.StateDb.{decrease_balance}

-- An action that leaves the slot, the latest block header and the latest payload header.
pub record IsKeeping {c : Collections} {A : Type 0} (m : Exec (Kv c) A) : Type 0 where
  pub at :
      (kv : Kv c)
      → ((m kv).1.slot ≡ kv.slot)
        × ((m kv).1.latest_block_header ≡ kv.latest_block_header)
        × ((m kv).1.latest_execution_payload_header ≡ kv.latest_execution_payload_header)

module _ {c : Collections} where
  next_withdrawal_reads :
      (cs : ChainSpec) (epoch i v : ℕ) (kv : Kv c) → (next_withdrawal cs epoch i v kv).1 ≡ kv
  unfolding next_withdrawal
  next_withdrawal_reads cs epoch i v kv = ground arith

  sweep_reads :
      (cs : ChainSpec) (epoch total turns found i v : ℕ) (kv : Kv c)
      → (sweep cs epoch total turns found i v kv).1 ≡ kv
  unfolding sweep
  sweep_reads cs epoch total zero found i v kv = refl
  sweep_reads cs epoch total (suc turns) found i v kv = ground (
    arith,
    next_withdrawal_reads cs epoch i v kv,
    sweep_reads cs epoch total turns (suc found) (add64 i 1) (add64 v 1 % total) kv,
  )

  expected_withdrawals_reads : (cs : ChainSpec) (kv : Kv c) → (expected_withdrawals cs kv).1 ≡ kv
  unfolding expected_withdrawals
  expected_withdrawals_reads cs kv = grind (arith, sweep_reads cs)

  for_each-IsKeeping :
      {A : Type 0} (f : A → Exec (Kv c) Unit) (xs : List A)
      → ((x : A) → IsKeeping (f x))
      → IsKeeping (for_each f xs)
  unfolding for_each
  for_each-IsKeeping f [] each = record { at = λ kv. (refl, refl, refl) }
  for_each-IsKeeping f (x ∷ xs) each = record {
    at = λ kv. ground (arith, (each x).at kv, (for_each-IsKeeping f xs each).at (f x kv).1);
  }

module _ {c : Collections} (sp : StateProcessor) where
  apply_withdrawals-IsKeeping :
      (ws ps : List Withdrawal) → IsKeeping (apply_withdrawals {c = c} sp ws ps)
  unfolding apply_withdrawals decrease_balance
  apply_withdrawals-IsKeeping [] ps = record { at = λ kv. (refl, refl, refl) }
  apply_withdrawals-IsKeeping (w ∷ ws) [] = record { at = λ kv. (refl, refl, refl) }
  apply_withdrawals-IsKeeping (w ∷ ws) (p ∷ ps) = record {
    at = λ kv. ground (
      arith,
      (apply_withdrawals-IsKeeping ws ps).at (decrease_balance w.validator w.amount kv).1,
    );
  }

  apply_withdrawals_at :
      (ws ps : List Withdrawal) (kv : Kv c)
      → ((apply_withdrawals sp ws ps kv).1.slot ≡ kv.slot)
        × ((apply_withdrawals sp ws ps kv).1.latest_block_header ≡ kv.latest_block_header)
        × ((apply_withdrawals sp ws ps kv).1.latest_execution_payload_header
            ≡ kv.latest_execution_payload_header)
  apply_withdrawals_at ws ps kv = (apply_withdrawals-IsKeeping ws ps).at kv

  pub process_withdrawals-IsKeeping :
      (body : BeaconBlockBody) → IsKeeping (process_withdrawals {c = c} sp body)
  unfolding process_withdrawals
  process_withdrawals-IsKeeping body = record {
    at = λ kv. grind (arith, expected_withdrawals_reads sp.cs kv, apply_withdrawals_at);
  }

  pub process_randao_reveal-IsKeeping :
      (blk : BeaconBlock) (skip : Bool) → IsKeeping (process_randao_reveal {c = c} sp blk skip)
  unfolding process_randao_reveal verify_randao_reveal
  process_randao_reveal-IsKeeping blk skip = record { at = λ kv. ground arith }

  deposit_mixes :
      (dep : Deposit) (kv : Kv c) → (process_deposit sp dep kv).1.randao_mix ≡ kv.randao_mix
  unfolding process_deposit apply_deposit
  deposit_mixes dep kv = ground arith

  pub process_deposits_mixes :
      (deposits : List Deposit) (kv : Kv c)
      → (process_deposits sp deposits kv).1.randao_mix ≡ kv.randao_mix
  unfolding process_deposits for_each
  process_deposits_mixes [] kv = refl
  process_deposits_mixes (dep ∷ deposits) kv =
      ground
        (arith, deposit_mixes dep kv, process_deposits_mixes deposits (process_deposit sp dep kv).1)

  process_deposit-IsKeeping : (dep : Deposit) → IsKeeping (process_deposit {c = c} sp dep)
  unfolding process_deposit apply_deposit
  process_deposit-IsKeeping dep = record { at = λ kv. ground arith }

  pub process_deposits-IsKeeping :
      (deposits : List Deposit) → IsKeeping (process_deposits {c = c} sp deposits)
  unfolding process_deposits
  process_deposits-IsKeeping deposits =
      for_each-IsKeeping (process_deposit sp) deposits process_deposit-IsKeeping

  pub process_operations-IsKeeping :
      (blk : BeaconBlock) → IsKeeping (process_operations {c = c} sp blk)
  unfolding process_operations
  process_operations-IsKeeping blk = record {
    at = λ kv. ground (arith, (process_deposits-IsKeeping blk.body.deposits).at kv);
  }
