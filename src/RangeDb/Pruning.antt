-- ===== src/RangeDb/Pruning.antt =====
-- The invariant of the range database, and what a pruning removes.
use beacon_kit.Prelude.{
  ℕ, zero, suc, Bytes, arith, none, refl, ◌<◌, ◌≡◌, if◌then◌else◌, leb, max, ◌&&◌, ltb, ◌+◌,
  Bool-cases, ◌==◌, inl, inr, ◌-◌, ◌≤◌,
}
use beacon_kit.Exec.{ok, err, Result}
use beacon_kit.RangeDb.{Files, RangeDb, get_value, set_value, delete_rounds, prune_range}

-- The invariant that the source states: no index below the first non-nil one is populated.
pub record IsPruned {f : Files} (db : RangeDb f) : Type 0 where
  pub at : (i : ℕ) (key : Bytes) → i < db.first_non_nil_index → get_value db i key ≡ none

module _ {f : Files} where
  delete_rounds_effect :
      (n from : ℕ) (db db' : RangeDb f) (j : ℕ) (key : Bytes)
      → delete_rounds n from db ≡ (ok tt, db')
      → get_value db' j key ≡ (if leb from j && ltb j (from + n) then none else get_value db j key)
  unfolding delete_rounds get_value
  delete_rounds_effect zero from db db' j key h = ground arith
  delete_rounds_effect (suc n) from db db' j key h =
      let db1 : RangeDb f = record db { files = (f.remove_all db.files from).1 } in
      elim (Bool-cases (from == j)) [
        | inl here ↦ ground (
          arith,
          delete_rounds_effect n (suc from) db1 db' j key,
          f.remove_all-empties db.files (f.remove_all db.files from).1 from key,
        )
        | inr other ↦ ground (
          arith,
          delete_rounds_effect n (suc from) db1 db' j key,
          f.remove_all-others db.files from j key,
        )
      ]

  -- A pruning that succeeds removes what stands at the indices from the larger of `start` and the
  -- first non-nil index up to `end`, leaves the others, and makes `end` the first non-nil index. If
  -- `start` is the larger, the indices between the two keep what they hold.
  pub prune_range_removes :
      (start end : ℕ) (db db' : RangeDb f)
      → prune_range start end db ≡ (ok tt, db')
      → (j : ℕ) (key : Bytes)
      → (db'.first_non_nil_index ≡ end)
        × (get_value db' j key ≡ (
            if leb (max start db.first_non_nil_index) j && ltb j end
            then none
            else get_value db j key))
  unfolding prune_range get_value
  prune_range_removes start end db db' h j key =
      let from = max start db.first_non_nil_index in
      ground (
        arith,
        delete_rounds_effect (end - from) from db (delete_rounds (end - from) from db).1 j key,
      )

  -- Pruning from an index that is not above the first non-nil one keeps the invariant, whether it
  -- succeeds or fails.
  pub prune_range-IsPruned :
      (start end : ℕ) (db : RangeDb f)
      → start ≤ db.first_non_nil_index
      → IsPruned db
      → IsPruned (prune_range start end db).1
  prune_range-IsPruned start end db l pruned = go ((prune_range start end db).0) refl
    where
      go :
          (r : Result Unit)
          → (prune_range start end db).0 ≡ r
          → IsPruned (prune_range start end db).1
      go (ok u) e = record {
        at = λ i key b. ground (
          arith,
          prune_range_removes start end db (prune_range start end db).1 (ground arith) i key,
          pruned.at i key,
        );
      }
      go (err x) e = record { at = λ i key b. unfold prune_range in ground arith }

  -- Set keeps the invariant, whether the write succeeds or fails.
  set_value-IsPruned :
      (index : ℕ) (key value : Bytes) (db : RangeDb f)
      → IsPruned db
      → IsPruned (set_value index key value db).1
  set_value-IsPruned index key value db pruned = record {
    at = λ i k b.
        unfold set_value get_value in
        ground (arith, pruned.at i k, f.set_file-others db.files index key value i k);
  }
