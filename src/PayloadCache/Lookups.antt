-- ===== src/PayloadCache/Lookups.antt =====
-- What the payload id cache returns after a change.
use beacon_kit.Prelude.{
  ◌≡◌, arith, none, some, [], ◌∷◌, ℕ, Bytes, if◌then◌else◌, ltb, false, ◌==◌, ◌&&◌, ◌↔◌, bytes_eq,
  ◌+◌, ◌-◌,
}
use beacon_kit.PayloadCache.{Cache, find_slot, find_root, get, has, set, prune_prior, insert_entry}

find_slot-prune_prior :
    (cache : Cache) (slot s : ℕ)
    → find_slot (prune_prior cache slot) s ≡ (if ltb s slot then none else find_slot cache s)
unfolding find_slot prune_prior
find_slot-prune_prior [] slot s = ground arith
find_slot-prune_prior ((t, inner) ∷ rest) slot s = ground (arith, find_slot-prune_prior rest slot s)

get-insert_entry :
    (cache : Cache) (slot : ℕ) (root pid : Bytes) (s : ℕ) (r : Bytes)
    → get (insert_entry cache slot root pid) s r
      ≡ (if slot == s && bytes_eq root r then some pid else get cache s r)
unfolding get insert_entry find_slot find_root
get-insert_entry [] slot root pid s r = ground arith
get-insert_entry ((t, inner) ∷ rest) slot root pid s r =
    ground (arith, get-insert_entry rest slot root pid s r)

-- After a payload id is set, a lookup finds it at its slot and root; it finds nothing at the slots
-- more than two before that one; and elsewhere what it found before.
pub get-set :
    (cache : Cache) (slot : ℕ) (root pid : Bytes) (s : ℕ) (r : Bytes)
    → get (set cache slot root pid) s r ≡ (
        if slot == s && bytes_eq root r
        then some pid
        else if ltb (s + 2) slot
        then none
        else get cache s r)
unfolding set get
get-set cache slot root pid s r = ground (
  arith,
  get-insert_entry (prune_prior cache (slot - 2)) slot root pid s r,
  get-insert_entry cache slot root pid s r,
  find_slot-prune_prior cache (slot - 2) s,
)

-- Has says whether Get finds a payload id.
has_iff :
    (cache : Cache) (slot : ℕ) (root : Bytes)
    → (has cache slot root ≡ false) ↔ (get cache slot root ≡ none)
unfolding has get
has_iff cache slot root = (λ h. ground arith, λ h. ground arith)
