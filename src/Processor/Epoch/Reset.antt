-- ===== src/Processor/Epoch/Reset.antt =====
-- What processSlashingsReset does to the slashings vector and to its total.
use beacon_kit.Prelude.{
  ℕ, ◌+◌, ◌-◌, ◌%◌, ◌<◌, ◌≤◌, ◌==◌, if◌then◌else◌, some, ◌≡◌, arith, u64_mod, add64, add64_eq,
}
use beacon_kit.Exec.{ok}
use beacon_kit.Chain.{slot_to_epoch}
use beacon_kit.Chain.Epochs.{slot_to_epoch_le}
use beacon_kit.Collections.{Collections}
use beacon_kit.BeaconDb.{Kv}
use beacon_kit.StateDb.{update_slashing_at_index}
use beacon_kit.StateDb.Slashings.{
  IsTotalled, slashing_at, slashing_at-le, slashing_sum, update_slashing-IsTotalled,
}
use beacon_kit.Processor.{StateProcessor}
use beacon_kit.Processor.Epoch.{process_slashings_reset}
use native.Mathlib.Nat.{mod-lt}

module _ {c : Collections} where
  -- An update that the total allows leaves the other places of the vector alone.
  update_slashing_others :
      (n i a : ℕ) (kv : Kv c)
      → IsTotalled n kv
      → i < n
      → (j : ℕ)
      → slashing_at (update_slashing_at_index i a kv).1 j ≡ (if i == j then a else slashing_at kv j)
  unfolding update_slashing_at_index
  update_slashing_others n i a kv t l j =
      ground (arith, slashing_at-le kv n i l, c.get-put kv.slashings i a j)

  -- On a state with a slot below the largest uint64, whose stored total is the sum of its slashings
  -- vector, below 2^64: processSlashingsReset succeeds, sets the place of the next epoch to zero and
  -- leaves the other places, and the stored total is the sum of the vector again.
  pub process_slashings_reset_clears :
      (sp : StateProcessor) (s : ℕ) (kv : Kv c)
      → s < u64_mod - 1
      → c.read kv.slot ≡ some s
      → IsTotalled sp.cs.epochs_per_slashings_vector kv
      → slashing_sum kv sp.cs.epochs_per_slashings_vector < u64_mod
      → let kv' = (process_slashings_reset sp kv).1 in
        ((process_slashings_reset sp kv).0 ≡ ok tt)
        × IsTotalled sp.cs.epochs_per_slashings_vector kv'
        × ((j : ℕ)
            → slashing_at kv' j ≡ (
                if (slot_to_epoch sp.cs s + 1) % sp.cs.epochs_per_slashings_vector == j
                then 0
                else slashing_at kv j))
  unfolding process_slashings_reset
  process_slashings_reset_clears sp s kv h slot t u =
      let n = sp.cs.epochs_per_slashings_vector in
      let epoch = slot_to_epoch sp.cs s in
      let below : epoch ≤ s = slot_to_epoch_le sp.cs s in
      let next : add64 epoch 1 ≡ epoch + 1 = add64_eq epoch 1 (omega arith) in
      let place : (epoch + 1) % n < n =
        mod-lt (epoch + 1) sp.cs.epochs_per_slashings_vector_positive in
      let (done, total, cleared) =
        update_slashing-IsTotalled n ((epoch + 1) % n) 0 kv t place (omega arith) in
      (
        ground arith,
        ground arith,
        λ j. ground (arith, update_slashing_others n ((epoch + 1) % n) 0 kv t place j),
      )
