-- ===== src/Pruner.antt =====
-- mod/storage/pkg/pruner/pruner.go, and the ranges that it is given: BuildPruneRangeFn of
-- mod/da/pkg/store/pruner.go and of mod/execution/pkg/deposit/pruner.go. An error of a pruning is only
-- logged, so that what it has removed stays removed.
pub mod Blobs
pub mod Deposits
use beacon_kit.Prelude.{ℕ, List, [], ◌∷◌, Option, none, some, Bool, if◌then◌else◌, ltb, ◌-◌, mul64}
use beacon_kit.Chain.{ChainSpec}
use beacon_kit.Types.{BeaconBlock, Deposit}
use beacon_kit.Collections.{Collections}
use beacon_kit.RangeDb.{Files, RangeDb, prune_range}
use beacon_kit.DepositStore.{prune}

-- An event of the block feed.
pub record BlockEvent : Type 0 where
  pub is_finalized : Bool
  pub block : BeaconBlock

-- BuildPruneRangeFn of the availability store
unfoldable pub blob_prune_range : ChainSpec → BeaconBlock → ℕ × ℕ
blob_prune_range cs blk =
    let window = mul64 cs.min_epochs_for_blobs_sidecars_request cs.slots_per_epoch in
    if ltb blk.slot window then (0, 0) else (0, blk.slot - window)

-- deposits[len(deposits)-1]
unfoldable pub last_deposit : List Deposit → Option Deposit
last_deposit [] = none
last_deposit (deposit ∷ []) = some deposit
last_deposit (deposit ∷ next ∷ deposits) = last_deposit (next ∷ deposits)

-- min of Go
unfoldable pub lesser : ℕ → ℕ → ℕ
lesser a b = if ltb b a then b else a

-- BuildPruneRangeFn of the deposit store, on the index of the last deposit.
unfoldable pub range_below : ℕ → ℕ → ℕ × ℕ
unfolding lesser
range_below index max_deposits =
    if ltb index max_deposits
    then (0, lesser index max_deposits)
    else (index - max_deposits, lesser index max_deposits)

unfoldable pub deposit_prune_range : ChainSpec → BeaconBlock → ℕ × ℕ
unfolding range_below
deposit_prune_range cs blk = elim (last_deposit blk.body.deposits) [
  | none ↦ (0, 0)
  | some deposit ↦ range_below deposit.index cs.max_deposits_per_block
]

module _ {S : Type 0} (range_of : BeaconBlock → ℕ × ℕ) (prune_store : ℕ → ℕ → S → S) where
  -- One round of the loop of Start.
  unfoldable pub handle_event : BlockEvent → S → S
  handle_event event store =
      if event.is_finalized
      then (let (start, end) = range_of event.block in prune_store start end store)
      else store

  -- The loop of Start, over the events that come.
  unfoldable pub run_pruner : List BlockEvent → S → S
  unfolding handle_event
  run_pruner [] store = store
  run_pruner (event ∷ events) store = run_pruner events (handle_event event store)

-- The pruner of the availability store.
unfoldable pub prune_blobs : {f : Files} → ChainSpec → List BlockEvent → RangeDb f → RangeDb f
unfolding run_pruner
prune_blobs cs events db =
    run_pruner (blob_prune_range cs) (λ start end d. (prune_range start end d).1) events db

-- The pruner of the deposit store.
unfoldable pub prune_deposits :
    (c : Collections) → ChainSpec → List BlockEvent → c.Map Deposit → c.Map Deposit
unfolding run_pruner
prune_deposits c cs events store =
    run_pruner (deposit_prune_range cs) (λ start end s. prune c s start end) events store
