-- ===== src/StateDb/Slashings.antt =====
-- The running total of the slashings vector.
use beacon_kit.Prelude.{
  inl, inr, refl, zero, suc, ℕ, ◌+◌, ◌<◌, ◌≡◌, u64_mod, ◌≤◌, if◌then◌else◌, Bool-cases, ltb, arith,
  add64, ◌==◌, sub64, sub64_eq, add64_eq, ◌-◌,
}
use beacon_kit.Collections.{Collections}
use beacon_kit.BeaconDb.{Kv, or_zero}
use beacon_kit.StateDb.{update_slashing_at_index}
use beacon_kit.Exec.{ok}

module _ {c : Collections} where
  -- The amount at a place of the slashings vector.
  abbrev pub slashing_at : Kv c → ℕ → ℕ
  slashing_at kv i = or_zero (c.get kv.slashings i)

  -- The sum of the first `n` places.
  abbrev pub slashing_sum : Kv c → ℕ → ℕ
  slashing_sum kv zero = 0
  slashing_sum kv (suc n) = slashing_at kv n + slashing_sum kv n

  -- The stored total is the sum over the vector of `n` places.
  abbrev pub IsTotalled : ℕ → Kv c → Type 0
  IsTotalled n kv = or_zero (c.read kv.total_slashing) ≡ slashing_sum kv n

  pub slashing_at-le : (kv : Kv c) (n i : ℕ) → i < n → slashing_at kv i ≤ slashing_sum kv n
  slashing_at-le kv zero i l = elim l [ ]
  slashing_at-le kv (suc n) i l = elim (Bool-cases (i == n)) [
    | inl e ↦ ground arith
    | inr e ↦ ground (arith, slashing_at-le kv n i)
  ]

  -- Writing one place moves the sum by the difference.
  sum_after_put :
      (kv kv' : Kv c) (n i a : ℕ)
      → kv'.slashings ≡ c.put kv.slashings i a
      → slashing_sum kv' n + (if ltb i n then slashing_at kv i else 0)
        ≡ slashing_sum kv n + (if ltb i n then a else 0)
  sum_after_put kv kv' zero i a e = ground arith
  sum_after_put kv kv' (suc n) i a e =
      ground (arith, sum_after_put kv kv' n i a, c.get-put kv.slashings i a n)

  -- On a state whose stored total is the sum of its slashings vector: an update at a place of the
  -- vector succeeds, stores the amount, and keeps the total equal to the sum, if the old sum and
  -- the new amount together are below 2^64.
  pub update_slashing-IsTotalled :
      (n i a : ℕ) (kv : Kv c)
      → IsTotalled n kv
      → i < n
      → slashing_sum kv n + a < u64_mod
      → ((update_slashing_at_index i a kv).0 ≡ ok tt)
        × IsTotalled n (update_slashing_at_index i a kv).1
        × (slashing_at (update_slashing_at_index i a kv).1 i ≡ a)
  unfolding update_slashing_at_index
  update_slashing-IsTotalled n i a kv t l u =
      let total = or_zero (c.read kv.total_slashing) in
      let old = slashing_at kv i in
      let total' = add64 (sub64 total old) a in
      let kv' : Kv c = record kv {
        total_slashing = c.write kv.total_slashing total';
        slashings = c.put kv.slashings i a;
      } in
      ground (
        arith,
        slashing_at-le kv n i l,
        sub64_eq total old,
        add64_eq (total - old) a,
        c.read-write kv.total_slashing total',
        c.get-put kv.slashings i a i,
        sum_after_put kv kv' n i a refl,
      )
