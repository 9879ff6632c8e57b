-- ===== src/Collections.antt =====
-- The interface of cosmossdk.io/collections v0.4, which the repository uses and does not contain:
-- items, maps keyed by uint64, a sequence, and the map of validators with its three indexes
-- (mod/storage/pkg/beacondb/index/validator.go). `none` is ErrNotFound. The laws are what the
-- package documents; other failures of the store (I/O, decoding) are not modelled, except those of
-- a write to the indexed map, which may report a conflict.
pub mod Assoc
use beacon_kit.Prelude.{ℕ, suc, List, Option, none, some, Bytes, ◌≡◌, ◌==◌, if◌then◌else◌}
use beacon_kit.Exec.{Result, ok}
use beacon_kit.Types.Validator.{Validator}

pub record Collections : Type 1 where
  pub Item : Type 0 → Type 0
  pub read : {V : Type 0} → Item V → Option V
  pub write : {V : Type 0} → Item V → V → Item V
  pub read-write : {V : Type 0} (i : Item V) (v : V) → read (write i v) ≡ some v
  pub Map : Type 0 → Type 0
  pub get : {V : Type 0} → Map V → ℕ → Option V
  pub put : {V : Type 0} → Map V → ℕ → V → Map V
  -- Iterate(ctx, nil), in the order of the keys
  pub values : {V : Type 0} → Map V → List V
  pub get-put :
      {V : Type 0} (m : Map V) (k : ℕ) (v : V) (j : ℕ)
      → get (put m k v) j ≡ (if k == j then some v else get m j)
  pub remove : {V : Type 0} → Map V → ℕ → Map V
  pub get-remove :
      {V : Type 0} (m : Map V) (k j : ℕ) → get (remove m k) j ≡ (if k == j then none else get m j)
  pub Sequence : Type 0
  -- the number that Next returns, and the sequence after it
  pub peek : Sequence → ℕ
  pub advance : Sequence → Sequence
  pub peek-advance : (s : Sequence) → peek (advance s) ≡ suc (peek s)
  pub Registry : Type 0
  pub validator : Registry → ℕ → Option Validator
  pub put_validator : Registry → ℕ → Validator → Result Registry
  pub index_by_pubkey : Registry → Bytes → Option ℕ
  pub validators : Registry → List Validator
  -- the primary keys in the order of the effective-balance index
  pub by_effective_balance : Registry → List ℕ
  pub validator-put :
      (r : Registry) (k : ℕ) (v : Validator) (r' : Registry) (j : ℕ)
      → put_validator r k v ≡ ok r'
      → validator r' j ≡ (if k == j then some v else validator r j)
  pub index_by_pubkey-put :
      (r : Registry) (k : ℕ) (v : Validator) (r' : Registry)
      → put_validator r k v ≡ ok r'
      → index_by_pubkey r' v.pubkey ≡ some k
