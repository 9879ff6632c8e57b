-- ===== src/Pruner/Blobs.antt =====
-- What the pruner of the availability store keeps, and what it removes.
use native.Mathlib.Nat.{
  add_comm, add-mul, le-mul_of_pos_right, mul-div_cancel, add-mul-div_right, div-eq_of_lt,
}
use beacon_kit.Prelude.{
  sym, add64_eq, mul64_eq, ◌/◌, max, inl, inr, ◌∙◌, ◌-◌, ℕ, zero, suc, List, [], ◌∷◌, Bytes, ◌≡◌,
  refl, arith, ◌≤◌, ◌<◌, ◌+◌, ◌*◌, none, true, ap, mul64, ◌-◌, u64_mod,
}
use beacon_kit.RangeDb.Pruning.{prune_range_removes}
use beacon_kit.RangeDb.{
  Files, RangeDb, get_value, delete_rounds, delete_range, prune_range, record_pruned,
}
use beacon_kit.Pruner.{BlockEvent, handle_event, prune_blobs, blob_prune_range, run_pruner}
use beacon_kit.Chain.{within_da_period, slot_to_epoch, ChainSpec}
use beacon_kit.Exec.{ok, Result, err}
use beacon_kit.Exec.Success.{Result-cases}
use beacon_kit.Types.{BeaconBlock}

-- The block of every event is at this slot or below.
pub data UpTo (top : ℕ) : List BlockEvent → Type 0 where
  nothing : UpTo top []
  later :
      {event : BlockEvent}
      → {events : List BlockEvent} → event.block.slot ≤ top
      → UpTo top events
      → UpTo top (event ∷ events)

epoch_last : (e n : ℕ) → 1 ≤ n → (e * n + (n - 1)) / n ≡ e
epoch_last e n l =
    let none_over : (n - 1) / n ≡ 0 = div-eq_of_lt (omega arith) in
    let split : (n - 1 + e * n) / n ≡ (n - 1) / n + e = add-mul-div_right (n - 1) e l in
    ap (λ x. x / n) (add_comm (e * n) (n - 1)) ∙ (split ∙ omega arith)

module _ (cs : ChainSpec) where
  -- The last slot of an epoch counts the first slot of the epoch at the start of its period as within it.
  counted_within :
      (k slot : ℕ)
      → 2 ≤ cs.slots_per_epoch
      → slot
        ≡ (k + cs.min_epochs_for_blobs_sidecars_request) * cs.slots_per_epoch
          + (cs.slots_per_epoch - 1)
      → slot < u64_mod
      → within_da_period cs (k * cs.slots_per_epoch) slot ≡ true
  unfolding within_da_period slot_to_epoch
  counted_within k slot two at_slot small =
      let n = cs.slots_per_epoch in
      let e = k + cs.min_epochs_for_blobs_sidecars_request in
      let last = epoch_last e n (omega arith) in
      let first : k * n / n ≡ k = mul-div_cancel k (omega arith) in
      let bound : e ≤ e * n = le-mul_of_pos_right e (omega arith) in
      let sum = add64_eq k cs.min_epochs_for_blobs_sidecars_request (omega arith) in
      rw (at_slot, last, first, sum) (ground arith)

  -- The pruning at that slot ends at the last slot of the earlier epoch.
  blob_range_end :
      (blk : BeaconBlock) (k : ℕ)
      → 2 ≤ cs.slots_per_epoch
      → blk.slot
        ≡ (k + cs.min_epochs_for_blobs_sidecars_request) * cs.slots_per_epoch
          + (cs.slots_per_epoch - 1)
      → blk.slot < u64_mod
      → blob_prune_range cs blk ≡ (0, k * cs.slots_per_epoch + (cs.slots_per_epoch - 1))
  unfolding blob_prune_range
  blob_range_end blk k two at_slot small =
      let n = cs.slots_per_epoch in
      let m = cs.min_epochs_for_blobs_sidecars_request in
      let parts = add-mul k m n in let window = mul64_eq m n (omega arith) in ground arith

module _ {f : Files} where
  delete_rounds_above :
      (n from : ℕ) (db : RangeDb f) (j : ℕ) (key : Bytes)
      → from + n ≤ j
      → get_value (delete_rounds n from db).1 j key ≡ get_value db j key
  unfolding delete_rounds get_value
  delete_rounds_above zero from db j key l = refl
  delete_rounds_above (suc n) from db j key l =
      let db1 : RangeDb f = record db { files = (f.remove_all db.files from).1 } in
      let other = f.remove_all-others db.files from j key (omega arith) in
      let rest = delete_rounds_above n (suc from) db1 j key (omega arith) in
      elim (Result-cases ((f.remove_all db.files from).0)) [
        | inl (u, e) ↦ ground arith
        | inr (x, e) ↦ ground arith
      ]

  -- The rounds that are left before `end` stay below it.
  delete_rounds_below :
      (n from end : ℕ) (db : RangeDb f) (j : ℕ) (key : Bytes)
      → n ≡ end - from
      → end ≤ j
      → get_value (delete_rounds n from db).1 j key ≡ get_value db j key
  delete_rounds_below zero from end db j key e l = unfold delete_rounds in refl
  delete_rounds_below (suc n) from end db j key e l =
      delete_rounds_above (suc n) from db j key (omega arith)

  recorded :
      (end : ℕ) (m : Result Unit × RangeDb f) (j : ℕ) (key : Bytes)
      → get_value (record_pruned end m).1 j key ≡ get_value m.1 j key
  unfolding record_pruned get_value
  recorded end (ok u, db) j key = refl
  recorded end (err e, db) j key = refl

  prune_range_above :
      (start end : ℕ) (db : RangeDb f) (j : ℕ) (key : Bytes)
      → end ≤ j
      → get_value (prune_range start end db).1 j key ≡ get_value db j key
  unfolding prune_range delete_range
  prune_range_above start end db j key l =
      let from = max start db.first_non_nil_index in
      recorded end (delete_range from end db) j key
      ∙ delete_rounds_below (end - from) from end db j key refl l

  event_keeps :
      (cs : ChainSpec) (event : BlockEvent) (db : RangeDb f) (j : ℕ) (key : Bytes)
      → event.block.slot ≤ j + mul64 cs.min_epochs_for_blobs_sidecars_request cs.slots_per_epoch
      → get_value
          (handle_event (blob_prune_range cs) (λ start end d. (prune_range start end d).1) event db)
          j
          key
        ≡ get_value db j key
  unfolding handle_event blob_prune_range
  event_keeps cs event db j key l =
      let window = mul64 cs.min_epochs_for_blobs_sidecars_request cs.slots_per_epoch in
      let first = prune_range_above 0 0 db j key (omega arith) in
      let rest = prune_range_above 0 (event.block.slot - window) db j key (omega arith) in
      ground arith

  pruned_by :
      (cs : ChainSpec) (event : BlockEvent) (db db' : RangeDb f) (j : ℕ) (key : Bytes)
      → event.is_finalized ≡ true
      → (prune_range (blob_prune_range cs event.block).0 (blob_prune_range cs event.block).1 db).1
        ≡ db'
      → get_value db' j key ≡ none
      → get_value (prune_blobs cs (event ∷ []) db) j key ≡ none
  unfolding prune_blobs run_pruner handle_event
  pruned_by cs event db db' j key fin reached removed = ground arith

  -- Whatever events come, and whether their prunings succeed or fail: what is stored at slot `j` is
  -- kept when no block of the events is more than the window of MinEpochsForBlobsSidecarsRequest
  -- epochs, in slots, above `j`.
  pub window_kept :
      (cs : ChainSpec) (events : List BlockEvent) (db : RangeDb f) (j : ℕ) (key : Bytes)
      → UpTo (j + mul64 cs.min_epochs_for_blobs_sidecars_request cs.slots_per_epoch) events
      → get_value (prune_blobs cs events db) j key ≡ get_value db j key
  unfolding prune_blobs run_pruner
  window_kept cs [] db j key u = refl
  window_kept cs (event ∷ events) db j key (later l u) =
      window_kept cs events
        (handle_event (blob_prune_range cs) (λ start end d. (prune_range start end d).1) event db) j
        key u
      ∙ event_keeps cs event db j key l

  -- With at least two slots to an epoch, 64-bit slots, and no index above `k` epochs recorded as the
  -- first non-nil one: when the last slot of the epoch MinEpochsForBlobsSidecarsRequest after `k` is
  -- finalized and the pruning succeeds, what was stored at the first slot of epoch `k` is gone,
  -- though that slot still counts as within the period of data availability.
  pub period_pruned :
      (cs : ChainSpec) (event : BlockEvent) (db db' : RangeDb f) (k : ℕ) (key : Bytes)
      → 2 ≤ cs.slots_per_epoch
      → event.is_finalized ≡ true
      → event.block.slot
        ≡ (k + cs.min_epochs_for_blobs_sidecars_request) * cs.slots_per_epoch
          + (cs.slots_per_epoch - 1)
      → event.block.slot < u64_mod
      → db.first_non_nil_index ≤ k * cs.slots_per_epoch
      → prune_range (blob_prune_range cs event.block).0 (blob_prune_range cs event.block).1 db
        ≡ (ok tt, db')
      → (within_da_period cs (k * cs.slots_per_epoch) event.block.slot ≡ true)
        × (get_value (prune_blobs cs (event ∷ []) db) (k * cs.slots_per_epoch) key ≡ none)
  unfolding within_da_period slot_to_epoch prune_blobs run_pruner handle_event blob_prune_range
  period_pruned cs event db db' k key two fin at_slot small below h =
      let n = cs.slots_per_epoch in
      let m = cs.min_epochs_for_blobs_sidecars_request in
      let ends = blob_range_end cs event.block k two at_slot small in
      let counted = counted_within cs k event.block.slot two at_slot small in
      let (first, gone) =
        prune_range_removes 0 (k * n + (n - 1)) db db'
          (ap (λ r. prune_range r.0 r.1 db) (sym ends) ∙ h) (k * n) key in
      let removed : get_value db' (k * n) key ≡ none = ground arith in
      let reached : (prune_range (blob_prune_range cs event.block).0
            (blob_prune_range cs event.block).1 db).1
          ≡ db' =
        ap (λ x. x.1) h in
      (counted, pruned_by cs event db db' (k * n) key fin reached removed)
