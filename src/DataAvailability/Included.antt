-- ===== src/DataAvailability/Included.antt =====
-- The sidecars that are built for a block, against the check of their inclusion proofs.
use beacon_kit.DataAvailability.Accepting.{element_found, verify_inclusion_proof_found}
use native.Mathlib.Nat.{pow-le-pow_right}
use beacon_kit.Prelude.{
  ℕ, zero, suc, ◌+◌, ◌*◌, ◌^◌, ◌≤◌, ◌<◌, List, [], ◌∷◌, ◌++◌, Bytes, length, get_or, ◌≡◌, arith,
  refl, ap, ◌∙◌, some, length-append, inl, inr, mul64, mul64_eq,
}
use beacon_kit.Exec.{ok, bind_result}
use beacon_kit.Types.{BeaconBlockBody, zero_root, BeaconBlock}
use beacon_kit.Merkle.Layers.{node_above}
use beacon_kit.Merkle.Roots.{Fits}
use beacon_kit.Merkle.Proofs.{siblings, length-siblings}
use beacon_kit.Merkle.Branches.{mixin_length, length_chunk, root_from_branch}
use beacon_kit.DataAvailability.Factory.{
  SidecarFactory, leafify, element, commitment_leaf, BlobsBundle, build_sidecar, build_from,
  build_kzg_inclusion_proof, get_header, header_with, build_sidecars,
}
use beacon_kit.DataAvailability.{
  BlobVerifier, verify_inclusion_proofs, BlobSidecar, verify_inclusion_proof, block_body_kzg_offset,
}
use beacon_kit.Exec.Success.{Result-cases}
use beacon_kit.Chain.{active_fork_version_for_slot, version_deneb}
use beacon_kit.DataAvailability.BodyProofs.{
  IsHashable, container_root, length-leafify, commitments_root, commitment_proof, get_or-leafify,
  body_proof, branch_to_body,
}

-- Blobs, commitments and proofs that fit a list of at most 2 ^ k commitments, and a verifier over the
-- same hash as the factory.
pub record IsBundle (f : SidecarFactory) (v : BlobVerifier) (k : ℕ) (body : BeaconBlockBody)
    (bundle : BlobsBundle) : Type 0 where
  pub listed : body.blob_kzg_commitments ≡ bundle.commitments
  pub counted : length bundle.commitments ≡ length bundle.blobs
  pub proven : length bundle.proofs ≡ length bundle.blobs
  pub within : length bundle.commitments ≤ 2 ^ k
  pub limit : f.cs.max_blob_commitments_per_block ≡ 2 ^ k
  pub positive : 1 ≤ k
  pub small : k ≤ 58
  pub position : f.kzg_position ≡ 5
  pub few_routines : f.routines ≤ 50
  pub same_hasher : v.hasher ≡ f.hasher
  pub rooted : (c : Bytes) → v.commitment_root c ≡ ok (commitment_leaf f.hasher c)

module _ (f : SidecarFactory) (v : BlobVerifier) (k : ℕ) (body : BeaconBlockBody)
    (bundle : BlobsBundle) where
  branch_of : ℕ → IsHashable f k body → List Bytes
  branch_of i p =
      (siblings f.hasher i k 0 (leafify f.hasher body.blob_kzg_commitments)
        ++ (length_chunk (length (leafify f.hasher body.blob_kzg_commitments)) ∷ []))
      ++ (p.payload
          ∷ f.hasher.sha256 zero_root zero_root
          ∷ f.hasher.sha256 (f.hasher.sha256 p.randao p.eth1)
              (f.hasher.sha256 (f.graffiti body) p.deposits)
          ∷ [])

  root_from_parts : IsHashable f k body → Bytes
  root_from_parts p =
      container_root f.hasher p.randao p.eth1 (f.graffiti body) p.deposits p.payload
        (commitments_root f.hasher k body.blob_kzg_commitments)

  header_found :
      (blk : BeaconBlock) (root : Bytes)
      → f.body_root blk.body ≡ ok root
      → get_header f blk ≡ ok (header_with blk root)
  unfolding get_header
  header_found blk root found = ground arith

  kzg_inclusion_proof :
      (i : ℕ)
      → IsBundle f v k body bundle
      → (p : IsHashable f k body) → i < length bundle.blobs
      → build_kzg_inclusion_proof f body i ≡ ok (branch_of i p)
  unfolding build_kzg_inclusion_proof branch_of
  kzg_inclusion_proof i b p l =
      let sized = length-leafify f.hasher body.blob_kzg_commitments in
      let listed = ap length b.listed in
      let fits : Fits (leafify f.hasher body.blob_kzg_commitments) k = record {
        some_leaf = omega (arith, b.counted);
        within = omega (arith, b.within);
        above = b.positive;
        below = omega (arith, b.small);
      } in
      let lower =
        commitment_proof f k body i (omega (arith, b.small)) b.few_routines b.limit fits
          (omega (arith, b.counted)) in
      let upper = body_proof f k body p b.few_routines b.position in rw (lower, upper) refl

  length-branch_of : (i : ℕ) (p : IsHashable f k body) → length (branch_of i p) ≡ k + 4
  unfolding branch_of
  length-branch_of i p =
      let leaves = leafify f.hasher body.blob_kzg_commitments in
      let outer =
        length-append (siblings f.hasher i k 0 leaves ++ (length_chunk (length leaves) ∷ [])) (
          p.payload
          ∷ f.hasher.sha256 zero_root zero_root
          ∷ f.hasher.sha256 (f.hasher.sha256 p.randao p.eth1)
              (f.hasher.sha256 (f.graffiti body) p.deposits)
          ∷ []) in
      let inner =
        length-append (siblings f.hasher i k 0 leaves) (length_chunk (length leaves) ∷ []) in
      let path = length-siblings f.hasher i k 0 leaves in omega arith

  branch_accepted :
      (i : ℕ) (c : Bytes)
      → (b : IsBundle f v k body bundle) → (p : IsHashable f k body) → i < length bundle.blobs
      → element bundle.commitments i ≡ ok c
      → root_from_branch v.hasher
          (commitment_leaf f.hasher c)
          (branch_of i p)
          (length (branch_of i p))
          (i + 26 * 2 ^ k)
        ≡ ok (root_from_parts p)
  unfolding branch_of root_from_parts commitments_root
  branch_accepted i c b p l e =
      let leaves = leafify f.hasher body.blob_kzg_commitments in
      let leaf : get_or leaves i zero_root ≡ commitment_leaf f.hasher c =
        get_or-leafify f.hasher body.blob_kzg_commitments i c (rw b.listed e) in
      let found =
        branch_to_body f.hasher k i leaves p.randao p.eth1 (f.graffiti body) p.deposits p.payload
          (omega (arith, b.within, b.counted)) in
      let sized = length-branch_of i p in
      let counted = length-leafify f.hasher body.blob_kzg_commitments in
      rw (b.same_hasher, sized)
        ((rw leaf at found)
          ∙ ap
              (λ n. ok (
                container_root f.hasher p.randao p.eth1 (f.graffiti body) p.deposits p.payload
                  (mixin_length f.hasher (node_above f.hasher k 0 leaves 0) n)))
              counted)

  -- The sidecar of the blob at `i`, of a block with this body, is built and its inclusion proof is
  -- accepted.
  sidecar_included :
      (blk : BeaconBlock) (i : ℕ)
      → blk.body ≡ body
      → IsBundle f v k body bundle
      → IsHashable f k body
      → i < length bundle.blobs
      → (sc : BlobSidecar) × (build_sidecar f blk bundle i ≡ ok sc)
        × (verify_inclusion_proof v (26 * 2 ^ k) (some sc) ≡ ok tt)
  unfolding build_sidecar root_from_parts header_with
  sidecar_included blk i e b p l =
      let (blob, blob_eq) = element_found bundle.blobs i l in
      let (c, c_eq) = element_found bundle.commitments i (omega (arith, b.counted)) in
      let (proof, proof_eq) = element_found bundle.proofs i (omega (arith, b.proven)) in
      let branch = ap (λ x. build_kzg_inclusion_proof f x i) e ∙ kzg_inclusion_proof i b p l in
      let header = header_found blk (root_from_parts p) (ap f.body_root e ∙ p.body_eq) in
      (
        record {
          index = i;
          blob = blob;
          kzg_commitment = c;
          kzg_proof = proof;
          beacon_block_header = header_with blk (root_from_parts p);
          inclusion_proof = branch_of i p;
        },
        rw (branch, header, blob_eq, c_eq, proof_eq) refl,
        verify_inclusion_proof_found v _ (26 * 2 ^ k) (commitment_leaf f.hasher c)
            (omega (arith, length-branch_of i p, b.small))
            (omega (
              arith,
              b.within,
              b.counted,
              pow-le-pow_right {n = 2} (omega arith) {i = k} {j = 58} b.small,
            ))
            (b.rooted c) (branch_accepted i c b p l c_eq),
      )

  included_from :
      (seen : ℕ → BeaconBlock) (i n : ℕ)
      → ((j : ℕ) → (seen j).body ≡ body)
      → IsBundle f v k body bundle
      → IsHashable f k body
      → i + n ≤ length bundle.blobs
      → bind_result (build_from f seen bundle i n) (verify_inclusion_proofs v (26 * 2 ^ k)) ≡ ok tt
  unfolding build_from verify_inclusion_proofs
  included_from seen i zero same b p l = refl
  included_from seen i (suc n) same b p l =
      let (sc, built, accepted) = sidecar_included (seen i) i (same i) b p (omega arith) in
      let ih = included_from seen (suc i) n same b p (omega arith) in
      elim (Result-cases (build_from f seen bundle (suc i) n)) [
        | inl (scs, found) ↦ ground arith
        | inr (x, failed) ↦ ground arith
      ]

  -- With at most 50 hashing routines, a list limit of 2 ^ k commitments, k from 1 to 58, and blobs,
  -- commitments and proofs of the same number within that limit: whatever state root each goroutine
  -- finds in the block, its sidecars are built, and all of their inclusion proofs are accepted by the
  -- check that receivers of the block make, at a slot of Deneb.
  pub build_sidecars_included :
      (seen : ℕ → BeaconBlock) (slot : ℕ)
      → ((j : ℕ) → (seen j).body ≡ body)
      → IsBundle f v k body bundle
      → IsHashable f k body
      → active_fork_version_for_slot f.cs slot ≡ version_deneb
      → bind_result (build_sidecars f seen bundle) (λ scs.
        bind_result
          (block_body_kzg_offset f.cs slot)
          (λ offset. verify_inclusion_proofs v offset scs))
        ≡ ok tt
  unfolding build_sidecars
  build_sidecars_included seen slot same b p deneb =
      let bound = pow-le-pow_right {n = 2} (omega arith) {i = k} {j = 58} b.small in
      let offset : mul64 26 (2 ^ k) ≡ 26 * 2 ^ k = mul64_eq 26 (2 ^ k) (omega arith) in
      let whole : block_body_kzg_offset f.cs slot ≡ ok (26 * 2 ^ k) =
        unfold block_body_kzg_offset in ground (arith, ap (mul64 26) b.limit) in
      let all = included_from seen 0 (length bundle.blobs) same b p (omega arith) in rw whole all
