-- ===== src/PayloadCache.antt =====
-- mod/payload/pkg/cache/payload_id.go. The two levels of Go maps are association lists whose lookup
-- takes the first entry of a key; the mutex is left out, since each method holds it throughout.
pub mod Lookups
use beacon_kit.Prelude.{
  ℕ, [], ◌∷◌, none, some, Bytes, ltb, leb, bytes_eq, List, Option, Bool, if◌then◌else◌, false, ◌==◌,
  ◌-◌, true,
}

-- slotToStateRootToPayloadID
abbrev pub Cache : Type 0
Cache = List (ℕ × List (Bytes × Bytes))

-- historicalPayloadIDCacheSize
abbrev pub historical_size : ℕ
historical_size = 2

-- p.slotToStateRootToPayloadID[slot], if there is an entry
unfoldable pub find_slot : Cache → ℕ → Option (List (Bytes × Bytes))
find_slot [] slot = none
find_slot ((s, inner) ∷ rest) slot =
    let later = find_slot rest slot in if s == slot then some inner else later

unfoldable pub find_root : List (Bytes × Bytes) → Bytes → Option Bytes
find_root [] root = none
find_root ((r, pid) ∷ rest) root =
    let later = find_root rest root in if bytes_eq r root then some pid else later

-- Get; `none` is the result with false.
unfoldable pub get : Cache → ℕ → Bytes → Option Bytes
unfolding find_slot find_root
get cache slot root = elim (find_slot cache slot) [
  | none ↦ none
  | some inner ↦ find_root inner root
]

-- Has; a missing slot is a nil map, which holds nothing.
unfoldable pub has : Cache → ℕ → Bytes → Bool
unfolding find_slot find_root
has cache slot root = elim (find_slot cache slot) [
  | none ↦ false
  | some inner ↦ elim (find_root inner root) [ none ↦ false | some pid ↦ true ]
]

-- prunePrior
unfoldable pub prune_prior : Cache → ℕ → Cache
prune_prior [] slot = []
prune_prior ((s, inner) ∷ rest) slot =
    let kept = prune_prior rest slot in if ltb s slot then kept else (s, inner) ∷ kept

-- innerMap[stateRoot] = pid, in the map of the slot, which is made if there is none. The new entry
-- stands in front, where the lookup finds it first.
unfoldable pub insert_entry : Cache → ℕ → Bytes → Bytes → Cache
insert_entry [] slot root pid = (slot, (root, pid) ∷ []) ∷ []
insert_entry ((s, inner) ∷ rest) slot root pid =
    let later = insert_entry rest slot root pid in
    if s == slot then (s, (root, pid) ∷ inner) ∷ rest else (s, inner) ∷ later

-- Set
unfoldable pub set : Cache → ℕ → Bytes → Bytes → Cache
unfolding prune_prior insert_entry
set cache slot root pid =
    if leb historical_size slot
    then insert_entry (prune_prior cache (slot - historical_size)) slot root pid
    else insert_entry cache slot root pid
