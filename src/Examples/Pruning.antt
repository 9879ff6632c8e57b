-- ===== src/Examples/Pruning.antt =====
-- The theorems on the pruners, applied to small stores.
use beacon_kit.Prelude.{[], ◌∷◌, ◌≡◌, none, true, refl, arith, mul64}
use beacon_kit.Collections.Assoc.{assoc}
use beacon_kit.RangeDb.{prune_range, get_value, delete_range, delete_rounds, record_pruned}
use beacon_kit.RangeDb.Memory.{memory}
use beacon_kit.Example.{example_spec, example_block}
use beacon_kit.Examples.Storage.{numbered_deposit, queued, files}
use beacon_kit.Pruner.{BlockEvent, prune_blobs, prune_deposits, blob_prune_range, last_deposit}
use beacon_kit.Chain.{within_da_period}
use beacon_kit.Pruner.Blobs.{window_kept, period_pruned, later, nothing}
use beacon_kit.Pruner.Deposits.{finalized_deposits_pruned}

-- The block of slot 11, the last of epoch 5, with the deposit 5.
abbrev finalized_event : BlockEvent
finalized_event = record {
  is_finalized = true;
  block = record example_block {
    slot = 11;
    body = record example_block.body { deposits = numbered_deposit 5 ∷ [] };
  };
}

window_kept_example :
    get_value (prune_blobs example_spec (finalized_event ∷ []) files) 4 (1 ∷ [])
    ≡ get_value files 4 (1 ∷ [])
window_kept_example =
    window_kept example_spec (finalized_event ∷ []) files 4 (1 ∷ [])
      (later {event = finalized_event} {events = []} (unfold mul64 in omega arith) nothing)

period_pruned_example :
    (within_da_period example_spec 2 11 ≡ true)
    × (get_value (prune_blobs example_spec (finalized_event ∷ []) files) 2 (1 ∷ []) ≡ none)
period_pruned_example =
    period_pruned example_spec finalized_event files (prune_range {f = memory} 0 3 files).1 1
      (1 ∷ []) (omega arith) refl refl (omega arith) (omega arith)
      (unfold blob_prune_range mul64 prune_range delete_range delete_rounds record_pruned in refl)

finalized_deposits_pruned_example :
    assoc.get (prune_deposits assoc example_spec (finalized_event ∷ []) queued) 4 ≡ none
finalized_deposits_pruned_example =
    finalized_deposits_pruned assoc example_spec finalized_event queued (numbered_deposit 5) 4 refl
      (unfold last_deposit in refl) (omega arith)
