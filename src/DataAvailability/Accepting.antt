-- ===== src/DataAvailability/Accepting.antt =====
-- What the checks of sidecars in mod/da/pkg/types accept, and the elements of a bundle.
use beacon_kit.Prelude.{
  ℕ, zero, suc, ◌+◌, ◌<◌, List, [], ◌∷◌, Bytes, length, ◌≡◌, arith, refl, some, true, u64_mod,
  bytes_eq_refl, ◌%◌, add64, add64_eq,
}
use beacon_kit.Exec.{ok}
use beacon_kit.Merkle.{Hasher}
use beacon_kit.Merkle.Branches.{root_from_branch, is_valid_merkle_branch}
use beacon_kit.DataAvailability.Factory.{element}
use beacon_kit.DataAvailability.{
  BlobVerifier, BlobSidecar, verify_inclusion_proof, has_valid_inclusion_proof,
}

pub element_found : (xs : List Bytes) (i : ℕ) → i < length xs → (x : Bytes) × (element xs i ≡ ok x)
unfolding element
element_found [] i l = absurd (omega arith)
element_found (x ∷ xs) zero l = (x, refl)
element_found (x ∷ xs) (suc i) l = element_found xs i (omega arith)

is_valid_merkle_branch_found :
    (h : Hasher) (leaf : Bytes) (branch : List Bytes) (depth index : ℕ) (root : Bytes)
    → length branch ≡ depth
    → root_from_branch h leaf branch depth index ≡ ok root
    → is_valid_merkle_branch h leaf branch depth index root ≡ ok true
unfolding is_valid_merkle_branch
is_valid_merkle_branch_found h leaf branch depth index root sized found =
    let same = bytes_eq_refl root in ground arith

pub verify_inclusion_proof_found :
    (v : BlobVerifier) (sc : BlobSidecar) (offset : ℕ) (leaf : Bytes)
    → length sc.inclusion_proof < 256
    → offset + sc.index < u64_mod
    → v.commitment_root sc.kzg_commitment ≡ ok leaf
    → root_from_branch v.hasher leaf sc.inclusion_proof
        (length sc.inclusion_proof)
        (sc.index + offset)
      ≡ ok sc.beacon_block_header.body_root
    → verify_inclusion_proof v offset (some sc) ≡ ok tt
unfolding verify_inclusion_proof has_valid_inclusion_proof
verify_inclusion_proof_found v sc offset leaf short within rooted found =
    let sized : length sc.inclusion_proof % 256 ≡ length sc.inclusion_proof = omega arith in
    let index : add64 offset sc.index ≡ sc.index + offset =
      omega (arith, add64_eq offset sc.index within) in
    let valid : is_valid_merkle_branch v.hasher leaf sc.inclusion_proof
          (length sc.inclusion_proof % 256) (add64 offset sc.index) sc.beacon_block_header.body_root
        ≡ ok true =
      rw (sized, index)
        (is_valid_merkle_branch_found v.hasher leaf sc.inclusion_proof (length sc.inclusion_proof)
          (sc.index + offset) sc.beacon_block_header.body_root refl found) in
    ground arith
