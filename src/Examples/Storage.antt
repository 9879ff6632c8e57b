-- ===== src/Examples/Storage.antt =====
-- The theorems on the deposit store, applied to a store in use.
use beacon_kit.Prelude.{◌∷◌, [], ◌≡◌, arith, replicate, ℕ, refl}
use beacon_kit.Types.{Deposit}
use beacon_kit.Collections.Assoc.{assoc}
use beacon_kit.DepositStore.{get_deposits_by_index, enqueue_deposits}
use beacon_kit.DepositStore.Queue.{get_deposits_by_index-enqueue_deposits}
use beacon_kit.RangeDb.{RangeDb, prune_range, get_value}
use beacon_kit.RangeDb.Pruning.{IsPruned, prune_range-IsPruned}
use beacon_kit.RangeDb.Memory.{memory}

abbrev pub numbered_deposit : ℕ → Deposit
numbered_deposit n = record {
  pubkey = n ∷ [];
  credentials = replicate 32 0;
  amount = 32;
  signature = [];
  index = n;
}

abbrev pub queued : assoc.Map Deposit
queued = (4, numbered_deposit 4) ∷ (5, numbered_deposit 5) ∷ []

get_deposits_by_index-enqueue_deposits_example :
    get_deposits_by_index assoc
      (enqueue_deposits assoc queued (numbered_deposit 5 ∷ numbered_deposit 6 ∷ []))
      5
      1
    ≡ numbered_deposit 5 ∷ []
get_deposits_by_index-enqueue_deposits_example =
    get_deposits_by_index-enqueue_deposits assoc queued
      (numbered_deposit 5 ∷ numbered_deposit 6 ∷ []) 5 1 (refl, (refl, tt)) (omega arith)
      (omega arith)

abbrev pub files : RangeDb memory
files = record { files = (2, 1 ∷ [], 9 ∷ []) ∷ (4, 1 ∷ [], 8 ∷ []) ∷ []; first_non_nil_index = 1 }

files-IsPruned : IsPruned files
files-IsPruned = record { at = λ i key b. unfold get_value in ground arith }

prune_range-IsPruned_example : IsPruned (prune_range {f = memory} 0 3 files).1
prune_range-IsPruned_example = prune_range-IsPruned 0 3 files (omega arith) files-IsPruned
