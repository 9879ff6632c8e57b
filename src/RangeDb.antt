-- ===== src/RangeDb.antt =====
-- mod/storage/pkg/filedb/range_db.go: files grouped by an index, with the first index that may hold
-- one.
pub mod Pruning
pub mod Memory
use beacon_kit.Prelude.{
  ℕ, zero, suc, Bytes, Bool, true, false, max, none, ltb, Option, if◌then◌else◌, ◌-◌, ◌≡◌, some,
  ◌≢◌,
}
use beacon_kit.Exec.{Result, ok, err, Exec, continue}

-- The file system under the database, by the index and the key that make up a path (`prefix`).
-- `none` is a file that does not exist. A call that fails may have done some of its work, but only
-- on the path, or under the index, that it was given.
pub record Files : Type 1 where
  pub State : Type 0
  pub get_file : State → ℕ → Bytes → Option Bytes
  pub set_file : State → ℕ → Bytes → Bytes → Result Unit × State
  pub delete_file : State → ℕ → Bytes → Result Unit × State
  -- RemoveAll on the directory of an index
  pub remove_all : State → ℕ → Result Unit × State
  pub get-set_file :
      (s s' : State) (i : ℕ) (key value : Bytes)
      → set_file s i key value ≡ (ok tt, s')
      → get_file s' i key ≡ some value
  pub set_file-others :
      (s : State) (i : ℕ) (key value : Bytes) (j : ℕ) (k : Bytes)
      → i ≢ j
      → get_file (set_file s i key value).1 j k ≡ get_file s j k
  pub set_file-keys :
      (s : State) (i : ℕ) (key value : Bytes) (k : Bytes)
      → key ≢ k
      → get_file (set_file s i key value).1 i k ≡ get_file s i k
  pub delete_file-others :
      (s : State) (i : ℕ) (key : Bytes) (j : ℕ) (k : Bytes)
      → get_file s j k ≡ none
      → get_file (delete_file s i key).1 j k ≡ none
  pub remove_all-empties :
      (s s' : State) (i : ℕ) (k : Bytes) → remove_all s i ≡ (ok tt, s') → get_file s' i k ≡ none
  pub remove_all-others :
      (s : State) (i j : ℕ) (k : Bytes) → i ≢ j → get_file (remove_all s i).1 j k ≡ get_file s j k

-- RangeDB
pub record RangeDb (f : Files) : Type 0 where
  pub files : f.State
  pub first_non_nil_index : ℕ

module _ {f : Files} where
  -- Get
  unfoldable pub get_value : RangeDb f → ℕ → Bytes → Option Bytes
  get_value db index key = f.get_file db.files index key

  -- Has
  unfoldable pub has_value : RangeDb f → ℕ → Bytes → Bool
  has_value db index key = elim (f.get_file db.files index key) [ none ↦ false | some value ↦ true ]

  -- Set
  unfoldable pub set_value : ℕ → Bytes → Bytes → Exec (RangeDb f) Unit
  set_value index key value db =
      let (r, files) = f.set_file db.files index key value in
      (
        r,
        record {
          files = files;
          first_non_nil_index =
              if ltb index db.first_non_nil_index then index else db.first_non_nil_index;
        },
      )

  -- Delete
  unfoldable pub delete_value : ℕ → Bytes → Exec (RangeDb f) Unit
  delete_value index key db =
      let (r, files) = f.delete_file db.files index key in (r, record db { files = files })

  -- The loop of DeleteRange, over the rounds left.
  unfoldable pub delete_rounds : ℕ → ℕ → Exec (RangeDb f) Unit
  delete_rounds zero from db = (ok tt, db)
  delete_rounds (suc n) from db =
      let (r, files) = f.remove_all db.files from in
      continue r (λ _. delete_rounds n (suc from)) (record db { files = files })

  -- DeleteRange, on a database over files.
  unfoldable pub delete_range : ℕ → ℕ → Exec (RangeDb f) Unit
  unfolding delete_rounds
  delete_range from to = delete_rounds (to - from) from

  -- What Prune makes of the outcome of DeleteRange.
  unfoldable pub record_pruned : ℕ → Result Unit × RangeDb f → Result Unit × RangeDb f
  record_pruned end (ok u, db) = (ok u, record db { first_non_nil_index = end })
  record_pruned end (err e, db) = (err e, record db { first_non_nil_index = 0 })

  -- Prune
  unfoldable pub prune_range : ℕ → ℕ → Exec (RangeDb f) Unit
  unfolding delete_range record_pruned
  prune_range start end db =
      record_pruned end (delete_range (max start db.first_non_nil_index) end db)
