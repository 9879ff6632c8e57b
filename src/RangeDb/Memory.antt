-- ===== src/RangeDb/Memory.antt =====
-- Files in memory, on which the range database is run.
use beacon_kit.Prelude.{
  ℕ, [], ◌∷◌, none, some, Bytes, arith, refl, bytes_eq, bytes_eq_refl, bytes_eq_iff, List, Option,
  if◌then◌else◌, ◌≡◌, ◌==◌, ◌&&◌,
}
use beacon_kit.Exec.{ok}
use beacon_kit.RangeDb.{Files}

abbrev pub Memory : Type 0
Memory = List (ℕ × Bytes × Bytes)

abbrev pub lookup_file : Memory → ℕ → Bytes → Option Bytes
lookup_file [] i key = none
lookup_file ((j, k, v) ∷ m) i key = if j == i && bytes_eq k key then some v else lookup_file m i key

abbrev pub drop_file : Memory → ℕ → Bytes → Memory
drop_file [] i key = []
drop_file ((j, k, v) ∷ m) i key =
    let rest = drop_file m i key in if j == i && bytes_eq k key then rest else (j, k, v) ∷ rest

abbrev pub drop_index : Memory → ℕ → Memory
drop_index [] i = []
drop_index ((j, k, v) ∷ m) i =
    let rest = drop_index m i in if j == i then rest else (j, k, v) ∷ rest

pub lookup_file-drop_file :
    (m : Memory) (i : ℕ) (key : Bytes) (j : ℕ) (k : Bytes)
    → lookup_file m j k ≡ none
    → lookup_file (drop_file m i key) j k ≡ none
lookup_file-drop_file [] i key j k h = refl
lookup_file-drop_file ((a, b, v) ∷ m) i key j k h =
    ground (arith, lookup_file-drop_file m i key j k)

pub lookup_file-drop_index :
    (m : Memory) (i j : ℕ) (k : Bytes)
    → lookup_file (drop_index m i) j k ≡ (if i == j then none else lookup_file m j k)
lookup_file-drop_index [] i j k = ground arith
lookup_file-drop_index ((a, b, v) ∷ m) i j k = ground (arith, lookup_file-drop_index m i j k)

abbrev pub memory : Files
memory = record {
  State = Memory;
  get_file = lookup_file;
  set_file = λ s i key value. (ok tt, (i, key, value) ∷ s);
  delete_file = λ s i key. (ok tt, drop_file s i key);
  remove_all = λ s i. (ok tt, drop_index s i);
  get-set_file = λ s s' i key value h. ground (arith, bytes_eq_refl key);
  set_file-others = λ s i key value j k n. ground arith;
  set_file-keys = λ s i key value k n. ground (arith, bytes_eq_iff key k);
  delete_file-others = λ s i key j k h. lookup_file-drop_file s i key j k h;
  remove_all-empties = λ s s' i k h. ground (arith, lookup_file-drop_index s i i k);
  remove_all-others = λ s i j k n. ground (arith, lookup_file-drop_index s i j k);
}
