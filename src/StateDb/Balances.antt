-- ===== src/StateDb/Balances.antt =====
-- What the balance operations of StateDB do to the balances.
use beacon_kit.Prelude.{
  ℕ, ◌-◌, ◌<◌, min, Option, some, ◌≡◌, arith, ◌==◌, if◌then◌else◌, u64_mod, sub64, sub64_eq,
}
use beacon_kit.Exec.{ok}
use beacon_kit.Collections.{Collections}
use beacon_kit.BeaconDb.{Kv}
use beacon_kit.StateDb.{decrease_balance}

-- The balance that the store holds for a validator.
abbrev pub balance_at : {c : Collections} → Kv c → ℕ → Option ℕ
balance_at {c} kv i = c.get kv.balances i

module _ {c : Collections} (kv : Kv c) (i delta b : ℕ) (found : balance_at kv i ≡ some b) where
  -- On a validator whose stored balance is a uint64: a decrease succeeds, never wraps, and stops at
  -- zero; the balances of the other validators and the registry stay.
  pub decrease_balance_saturates :
      b < u64_mod
      → (j : ℕ)
      → ((decrease_balance i delta kv).0 ≡ ok tt)
        × (balance_at (decrease_balance i delta kv).1 j
            ≡ (if i == j then some (b - delta) else balance_at kv j))
        × ((decrease_balance i delta kv).1.validators ≡ kv.validators)
  unfolding decrease_balance
  decrease_balance_saturates h j =
      ground (arith, c.get-put kv.balances i (sub64 b (min b delta)) j, sub64_eq b (min b delta))
