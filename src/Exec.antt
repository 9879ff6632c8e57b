-- ===== src/Exec.antt =====
-- Results of the Go functions that return an error, and actions on a state that may fail.
-- A Go method that returns an error keeps what it wrote before, so the state comes back with it.
pub mod Reads
pub mod Success
use beacon_kit.Prelude.{
  ◌/◌, ◌%◌, ◌==◌, if◌then◌else◌, ℕ, zero, suc, ◌+◌, List, [], ◌∷◌, Option, none, some,
}

-- The errors of state-transition/pkg/core/errors.go, those of the packages below it, and those that
-- come from code outside the repository.
pub data Error : Type 0 where
  -- collections.ErrNotFound
  not_found : Error
  block_slot_too_low slot_mismatch parent_root_mismatch parent_payload_hash_mismatch : Error
  randao_mix_mismatch exceeds_block_deposit_limit rewards_length_mismatch : Error
  penalties_length_mismatch exceeds_block_blob_limit slashed_proposer state_root_mismatch : Error
  xor_invalid : Error
  -- errors made in place, with no name of their own
  total_slashing_not_up_to_date withdrawals_length_mismatch withdrawals_mismatch : Error
  too_many_withdrawals unsupported_fork_version fork_version_not_supported : Error
  -- consensus-types/pkg/types/errors.go
  invalid_withdrawal_credentials : Error
  deposit_message : Error → Error
  -- primitives/pkg/merkle/errors.go
  empty_leaves zero_depth exceeded_depth insufficient_depth_for_leaves : Error
  odd_length_tree_roots : Error
  negative_index : Error
  merkle_index_out_of_range : ℕ → ℕ → Error
  -- engine-primitives/pkg/engine-primitives/errors.go
  invalid_timestamp empty_prev_randao nil_withdrawals : Error
  -- da/pkg/types/errors.go and da/pkg/store/errors.go
  sidecar_contains_differing_block_roots attempted_to_verify_nil_sidecar : Error
  invalid_inclusion_proof attempted_to_store_nil_sidecar : Error
  -- beacon/blockchain/errors.go
  nil_blk data_not_available : Error
  -- a run-time panic: a division by zero, an index out of range
  panic : Error
  external : ℕ → Error

pub data Result (A : Type 0) : Type 0 where
  ok : A → Result A
  err : Error → Result A

abbrev pub bind_result : {A B : Type 0} → Result A → (A → Result B) → Result B
bind_result (ok a) f = f a
bind_result (err e) f = err e

-- `if err != nil { return errors.Join(err, ...) }`
abbrev pub map_error : {A : Type 0} → (Error → Error) → Result A → Result A
map_error f (ok a) = ok a
map_error f (err e) = err (f e)

abbrev pub Exec : Type 0 → Type 0 → Type 0
Exec S A = S → Result A × S

module _ {S A : Type 0} where
  abbrev pub pure : A → Exec S A
  pure a s = (ok a, s)

  abbrev pub raise : Error → Exec S A
  raise e s = (err e, s)

  -- A pure Go call that may fail.
  abbrev pub lift : Result A → Exec S A
  lift r s = (r, s)

  abbrev pub gets : (S → A) → Exec S A
  gets f s = (ok (f s), s)

module _ {S A B : Type 0} where
  abbrev pub continue : Result A → (A → Exec S B) → Exec S B
  continue (ok a) f s = f a s
  continue (err e) f s = (err e, s)

  infixl 5 ◌>>=◌ ◌>>◌
  abbrev pub ◌>>=◌ : Exec S A → (A → Exec S B) → Exec S B
  ◌>>=◌ m f s = let (r, s') = m s in continue r f s'

  abbrev pub ◌>>◌ : Exec S A → Exec S B → Exec S B
  ◌>>◌ m n = m >>= λ _. n

abbrev pub modify : {S : Type 0} → (S → S) → Exec S (Unit {0})
modify f s = (ok tt, f s)

-- `for _, x := range xs { if err = f(x); err != nil { return err } }`
unfoldable pub for_each : {S A : Type 0} → (A → Exec S (Unit {0})) → List A → Exec S (Unit {0})
for_each f [] = pure tt
for_each f (x ∷ xs) = f x >> for_each f xs

-- `out := make([]A, n); for i := range n { out[i], err = f(i); ... }`
unfoldable pub collect : {S A : Type 0} → (ℕ → Exec S A) → ℕ → ℕ → Exec S (List A)
collect f i zero = pure []
collect f i (suc n) = f i >>= λ a. collect f (i + 1) n >>= λ rest. pure (a ∷ rest)

-- a / b and a % b, which panic when b is 0.
abbrev pub divide : ℕ → ℕ → Result ℕ
divide a b = if b == 0 then err panic else ok (a / b)

abbrev pub modulo : ℕ → ℕ → Result ℕ
modulo a b = if b == 0 then err panic else ok (a % b)
