-- ===== src/Collections/Assoc.antt =====
-- Association lists as the collections, on which tests and examples run.
use beacon_kit.Prelude.{
  ℕ, suc, List, [], ◌∷◌, map, Option, none, some, Bytes, Bool, false, ◌||◌, ◌≡◌, refl, ◌==◌,
  bytes_eq, bytes_eq_refl, if◌then◌else◌, ltb, leb, arith, not, ◌&&◌,
}
use beacon_kit.Exec.{Result, ok, err, external}
use beacon_kit.Collections.{Collections}
use beacon_kit.Types.Validator.{Validator}

-- Sorted by key.
abbrev pub insert : {V : Type 0} → List (ℕ × V) → ℕ → V → List (ℕ × V)
insert [] k v = (k, v) ∷ []
insert ((i, w) ∷ m) k v =
    let rest = insert m k v in
    if i == k then (k, v) ∷ m else if ltb k i then (k, v) ∷ (i, w) ∷ m else (i, w) ∷ rest

abbrev pub lookup : {V : Type 0} → List (ℕ × V) → ℕ → Option V
lookup [] k = none
lookup ((i, w) ∷ m) k = if i == k then some w else lookup m k

pub lookup-insert :
    {V : Type 0} (m : List (ℕ × V)) (k : ℕ) (v : V) (j : ℕ)
    → lookup (insert m k v) j ≡ (if k == j then some v else lookup m j)
lookup-insert [] k v j = refl
lookup-insert ((i, w) ∷ m) k v j = ground (arith, lookup-insert m k v j)

abbrev pub remove : {V : Type 0} → List (ℕ × V) → ℕ → List (ℕ × V)
remove [] k = []
remove ((i, w) ∷ m) k = let rest = remove m k in if i == k then rest else (i, w) ∷ rest

pub lookup-remove :
    {V : Type 0} (m : List (ℕ × V)) (k j : ℕ)
    → lookup (remove m k) j ≡ (if k == j then none else lookup m j)
lookup-remove [] k j = ground arith
lookup-remove ((i, w) ∷ m) k j = ground (arith, lookup-remove m k j)

abbrev pub find_key : List (ℕ × Validator) → Bytes → Option ℕ
find_key [] pubkey = none
find_key ((i, v) ∷ m) pubkey = if bytes_eq v.pubkey pubkey then some i else find_key m pubkey

-- Some entry under another key has the public key.
abbrev pub taken : List (ℕ × Validator) → ℕ → Bytes → Bool
taken [] k pubkey = false
taken ((i, v) ∷ m) k pubkey = (not (i == k) && bytes_eq v.pubkey pubkey) || taken m k pubkey

abbrev pub insert_unique : List (ℕ × Validator) → ℕ → Validator → Result (List (ℕ × Validator))
insert_unique m k v = if taken m k v.pubkey then err (external 1) else ok (insert m k v)

find_key-insert :
    (m : List (ℕ × Validator)) (k : ℕ) (v : Validator)
    → taken m k v.pubkey ≡ false
    → find_key (insert m k v) v.pubkey ≡ some k
find_key-insert [] k v h = ground (arith, bytes_eq_refl v.pubkey)
find_key-insert ((i, w) ∷ m) k v h = ground (arith, bytes_eq_refl v.pubkey, find_key-insert m k v)

-- The keys by effective balance, then by key.
abbrev pub insert_by_balance : ℕ × Validator → List (ℕ × Validator) → List (ℕ × Validator)
insert_by_balance (k, v) [] = (k, v) ∷ []
insert_by_balance (k, v) ((i, w) ∷ m) =
    let rest = insert_by_balance (k, v) m in
    if leb v.effective_balance w.effective_balance then (k, v) ∷ (i, w) ∷ m else (i, w) ∷ rest

abbrev pub sort_by_balance : List (ℕ × Validator) → List (ℕ × Validator)
sort_by_balance [] = []
sort_by_balance (e ∷ m) = insert_by_balance e (sort_by_balance m)

pub lookup-insert_unique :
    (r : List (ℕ × Validator)) (k : ℕ) (v : Validator) (r' : List (ℕ × Validator)) (j : ℕ)
    → insert_unique r k v ≡ ok r'
    → lookup r' j ≡ (if k == j then some v else lookup r j)
lookup-insert_unique r k v r' j h = ground (arith, lookup-insert r k v j)

pub find_key-insert_unique :
    (r : List (ℕ × Validator)) (k : ℕ) (v : Validator) (r' : List (ℕ × Validator))
    → insert_unique r k v ≡ ok r'
    → find_key r' v.pubkey ≡ some k
find_key-insert_unique r k v r' h = ground (arith, find_key-insert r k v)

abbrev pub assoc : Collections
assoc = record {
  Item = Option;
  read = λ i. i;
  write = λ i v. some v;
  read-write = λ i v. refl;
  Map = λ V. List (ℕ × V);
  get = lookup;
  put = insert;
  values = map (λ e. e.1);
  get-put = lookup-insert;
  remove = remove;
  get-remove = lookup-remove;
  Sequence = ℕ;
  peek = λ s. s;
  advance = suc;
  peek-advance = λ s. refl;
  Registry = List (ℕ × Validator);
  validator = lookup;
  put_validator = insert_unique;
  index_by_pubkey = find_key;
  validators = map (λ e. e.1);
  by_effective_balance = λ r. map (λ e. e.0) (sort_by_balance r);
  validator-put = lookup-insert_unique;
  index_by_pubkey-put = find_key-insert_unique;
}
