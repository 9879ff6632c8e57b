-- ===== src/DataAvailability/Verified.antt =====
-- What the check of blob sidecars establishes.
use mathlib.Core.Path.{subst⁻¹}
use beacon_kit.Prelude.{
  ℕ, List, [], ◌∷◌, Option, none, some, Bytes, true, bytes_eq, bytes_eq_iff, ◌≡◌, arith, refl, All,
  length, ◌%◌, add64, inl, inr, ◌∙◌, ap, sym,
}
use beacon_kit.Exec.{ok}
use beacon_kit.Merkle.{Hasher}
use beacon_kit.Merkle.Branches.{is_valid_merkle_branch, root_from_branch}
use beacon_kit.DataAvailability.{
  BlobSidecar, Sidecars, BlobVerifier, verify_kzg_proofs, join_errors, has_valid_inclusion_proof,
  verify_inclusion_proof, verify_inclusion_proofs, verify_blobs, same_block_roots,
  validate_block_roots, sidecar_root,
}
use beacon_kit.DataAvailability.Stored.{join_errors_ok}
use beacon_kit.Exec.Success.{Result-cases}

-- The branch of the sidecar leads from its commitment to the body root of its header.
pub record IsIncluded (v : BlobVerifier) (kzg_offset : ℕ) (o : Option BlobSidecar) : Type 0 where
  pub sidecar : BlobSidecar
  pub leaf : Bytes
  pub there : o ≡ some sidecar
  pub commitment : v.commitment_root sidecar.kzg_commitment ≡ ok leaf
  pub branch :
      root_from_branch v.hasher leaf sidecar.inclusion_proof
        (length sidecar.inclusion_proof)
        (add64 kzg_offset sidecar.index)
      ≡ ok sidecar.beacon_block_header.body_root

branch-is_valid_merkle_branch :
    (h : Hasher) (leaf : Bytes) (branch : List Bytes) (depth index : ℕ) (root : Bytes)
    → is_valid_merkle_branch h leaf branch depth index root ≡ ok true
    → root_from_branch h leaf branch (length branch) index ≡ ok root
unfolding is_valid_merkle_branch
branch-is_valid_merkle_branch h leaf branch depth index root e =
    elim (Result-cases (root_from_branch h leaf branch depth index)) [
      | inl (r, found) ↦
          let sized : length branch ≡ depth = ground arith in
          let same : bytes_eq r root ≡ true = ground arith in
          let eq = (bytes_eq_iff r root).0 same in
          ap (λ d. root_from_branch h leaf branch d index) sized ∙ found ∙ ap ok eq
      | inr (f, failed) ↦ ground arith
    ]

module _ (v : BlobVerifier) where
  verify_inclusion_proof-IsIncluded :
      (kzg_offset : ℕ) (o : Option BlobSidecar)
      → verify_inclusion_proof v kzg_offset o ≡ ok tt
      → IsIncluded v kzg_offset o
  unfolding verify_inclusion_proof has_valid_inclusion_proof
  verify_inclusion_proof-IsIncluded kzg_offset none e = cc
  verify_inclusion_proof-IsIncluded kzg_offset (some sc) e =
      elim (Result-cases (v.commitment_root sc.kzg_commitment)) [
        | inl (leaf, found) ↦
            let valid : is_valid_merkle_branch v.hasher leaf sc.inclusion_proof
                  (length sc.inclusion_proof % 256) (add64 kzg_offset sc.index)
                  sc.beacon_block_header.body_root
                ≡ ok true =
              ground arith in
            record {
              sidecar = sc;
              leaf = leaf;
              there = refl;
              commitment = found;
              branch =
                  branch-is_valid_merkle_branch v.hasher leaf sc.inclusion_proof
                    (length sc.inclusion_proof % 256) (add64 kzg_offset sc.index)
                    sc.beacon_block_header.body_root valid;
            }
        | inr (f, failed) ↦ ground arith
      ]

  verify_inclusion_proofs-IsIncluded :
      (kzg_offset : ℕ) (scs : Sidecars)
      → verify_inclusion_proofs v kzg_offset scs ≡ ok tt
      → All (IsIncluded v kzg_offset) scs
  unfolding verify_inclusion_proofs
  verify_inclusion_proofs-IsIncluded kzg_offset [] e = tt
  verify_inclusion_proofs-IsIncluded kzg_offset (sc ∷ scs) e =
      let both =
        join_errors_ok (verify_inclusion_proof v kzg_offset sc)
          (verify_inclusion_proofs v kzg_offset scs) e in
      (
        verify_inclusion_proof-IsIncluded kzg_offset sc both.0,
        verify_inclusion_proofs-IsIncluded kzg_offset scs both.1,
      )

  same_block_roots-All :
      (root : Bytes) (scs : Sidecars)
      → same_block_roots v root scs ≡ ok tt
      → All (λ sc. sidecar_root v sc ≡ ok root) scs
  unfolding same_block_roots
  same_block_roots-All root [] e = tt
  same_block_roots-All root (sc ∷ scs) e = elim (Result-cases (sidecar_root v sc)) [
    | inl (next, found) ↦
        let same : bytes_eq root next ≡ true = ground arith in
        let rest : same_block_roots v root scs ≡ ok tt = ground arith in
        (found ∙ ap ok (sym ((bytes_eq_iff root next).0 same)), same_block_roots-All root scs rest)
    | inr (f, failed) ↦ ground arith
  ]

  validate_block_roots-All :
      (first : Option BlobSidecar) (scs : Sidecars)
      → validate_block_roots v (first ∷ scs) ≡ ok tt
      → All (λ sc. sidecar_root v sc ≡ sidecar_root v first) scs
  unfolding validate_block_roots
  validate_block_roots-All first [] e = tt
  validate_block_roots-All first (next ∷ scs) e = elim (Result-cases (sidecar_root v first)) [
    | inl (root, found) ↦
        let same : same_block_roots v root (next ∷ scs) ≡ ok tt = ground arith in
        subst⁻¹ (λ r. All (λ sc. sidecar_root v sc ≡ r) (next ∷ scs)) found
          (same_block_roots-All root (next ∷ scs) same)
    | inr (f, failed) ↦ ground arith
  ]

  -- When the check of a list of sidecars passes, each sidecar is there and its branch leads from its
  -- commitment to the body root of its header; the root of every header is that of the first; and
  -- the verifier of KZG proofs accepted them.
  pub verify_blobs_sound :
      (kzg_offset : ℕ) (first : Option BlobSidecar) (scs : Sidecars)
      → verify_blobs v (first ∷ scs) kzg_offset ≡ ok tt
      → All (IsIncluded v kzg_offset) (first ∷ scs)
        × All (λ sc. sidecar_root v sc ≡ sidecar_root v first) scs
        × (verify_kzg_proofs v (first ∷ scs) ≡ ok tt)
  unfolding verify_blobs
  verify_blobs_sound kzg_offset first scs e =
      let outer =
        join_errors_ok (verify_inclusion_proofs v kzg_offset (first ∷ scs))
          (join_errors (verify_kzg_proofs v (first ∷ scs)) (validate_block_roots v (first ∷ scs)))
          e in
      let inner =
        join_errors_ok (verify_kzg_proofs v (first ∷ scs)) (validate_block_roots v (first ∷ scs))
          outer.1 in
      (
        verify_inclusion_proofs-IsIncluded kzg_offset (first ∷ scs) outer.0,
        validate_block_roots-All first scs inner.1,
        inner.0,
      )
