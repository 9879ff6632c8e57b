-- ===== src/DataAvailability/Factory.antt =====
-- mod/da/pkg/blob/factory.go: the sidecars of a block that is built, with GetTopLevelRoots and
-- GetHeader of mod/consensus-types/pkg/types. The pointers to blobs are taken for the blobs.
use beacon_kit.Prelude.{
  ◌-◌, ℕ, zero, suc, List, [], ◌∷◌, ◌++◌, Bytes, none, some, map, take, drop, get_or, get_elem?,
  length, replicate,
}
use beacon_kit.Exec.{Result, ok, err, bind_result, panic}
use beacon_kit.Types.{BeaconBlock, BeaconBlockBody, BeaconBlockHeader, zero_root}
use beacon_kit.Chain.{ChainSpec}
use beacon_kit.Merkle.{Hasher}
use beacon_kit.Merkle.Sized.{new_tree_with_max_leaves}
use beacon_kit.Merkle.Branches.{merkle_proof, merkle_proof_with_mixin}
use beacon_kit.DataAvailability.{BlobSidecar, Sidecars}

-- BlobsBundleV1
pub record BlobsBundle : Type 0 where
  pub commitments : List Bytes
  pub proofs : List Bytes
  pub blobs : List Bytes

-- xs[i]
unfoldable pub element : {A : Type 0} → List A → ℕ → Result A
element xs i = elim (get_elem? xs i) [ none ↦ err panic | some x ↦ ok x ]

-- The factory, with the SSZ roots of the parts of a body, and of a whole body, that generated code
-- and the SSZ library compute. `routines` is runtime.GOMAXPROCS(0) - 1.
pub record SidecarFactory : Type 0 where
  pub cs : ChainSpec
  pub kzg_position : ℕ
  pub hasher : Hasher
  pub routines : ℕ
  pub randao_root : BeaconBlockBody → Result Bytes
  pub eth1_data_root : BeaconBlockBody → Result Bytes
  pub graffiti : BeaconBlockBody → Bytes
  pub deposits_root : BeaconBlockBody → Result Bytes
  pub payload_root : BeaconBlockBody → Result Bytes
  pub body_root : BeaconBlockBody → Result Bytes

-- KZGCommitment.ToHashChunks, of which the first is the root.
unfoldable pub commitment_leaf : Hasher → Bytes → Bytes
commitment_leaf h commitment =
    get_or (h.hash_chunks (take 32 commitment ∷ (drop 32 commitment ++ replicate 16 0) ∷ [])) 0
      zero_root

-- Leafify
unfoldable pub leafify : Hasher → List Bytes → List Bytes
unfolding commitment_leaf
leafify h commitments = map (commitment_leaf h) commitments

-- BeaconBlockBodyDeneb.Length, BodyLengthDeneb
abbrev pub body_length : ℕ
body_length = 6

-- The header that GetHeader builds from the root of the body.
unfoldable pub header_with : BeaconBlock → Bytes → BeaconBlockHeader
header_with blk root = record {
  slot = blk.slot;
  proposer_index = blk.proposer_index;
  parent_block_root = blk.parent_block_root;
  state_root = blk.state_root;
  body_root = root;
}

module _ (f : SidecarFactory) where
  -- GetTopLevelRoots: the place of the commitments is left zero.
  unfoldable pub get_top_level_roots : BeaconBlockBody → Result (List Bytes)
  get_top_level_roots body = bind_result (f.randao_root body) (λ randao.
      bind_result (f.eth1_data_root body) (λ eth1. bind_result (f.deposits_root body) (λ deposits.
        bind_result (f.payload_root body)
          (λ payload. ok (randao ∷ eth1 ∷ f.graffiti body ∷ deposits ∷ payload ∷ zero_root ∷ [])))))

  -- GetHeader. Without a root of the body it returns nil, which panics where it is followed.
  unfoldable pub get_header : BeaconBlock → Result BeaconBlockHeader
  unfolding header_with
  get_header blk = elim (f.body_root blk.body) [
    | err e ↦ err panic
    | ok root ↦ ok (header_with blk root)
  ]

  -- BuildCommitmentProof
  unfoldable pub build_commitment_proof : BeaconBlockBody → ℕ → Result (List Bytes)
  build_commitment_proof body index =
      bind_result
        (new_tree_with_max_leaves f.hasher f.routines (leafify f.hasher body.blob_kzg_commitments)
          f.cs.max_blob_commitments_per_block)
        (λ t. merkle_proof_with_mixin f.hasher t index)

  -- BuildBlockBodyProof
  unfoldable pub build_block_body_proof : BeaconBlockBody → Result (List Bytes)
  build_block_body_proof body = bind_result (get_top_level_roots body) (λ roots.
      bind_result (new_tree_with_max_leaves f.hasher f.routines roots (body_length - 1))
        (λ t. merkle_proof f.hasher t f.kzg_position))

  -- BuildKZGInclusionProof
  unfoldable pub build_kzg_inclusion_proof : BeaconBlockBody → ℕ → Result (List Bytes)
  build_kzg_inclusion_proof body index =
      bind_result (build_commitment_proof body index) (λ commitments_proof.
        bind_result (build_block_body_proof body)
          (λ body_proof. ok (commitments_proof ++ body_proof)))

  -- The goroutine of BuildSidecars for the blob at `i`, on the block as it finds it.
  unfoldable pub build_sidecar : BeaconBlock → BlobsBundle → ℕ → Result BlobSidecar
  build_sidecar blk bundle i =
      bind_result (build_kzg_inclusion_proof blk.body i) (λ inclusion_proof.
        bind_result (get_header blk) (λ header. bind_result (element bundle.blobs i) (λ blob.
          bind_result (element bundle.commitments i) (λ commitment.
            bind_result (element bundle.proofs i) (λ proof. ok (record {
              index = i;
              blob = blob;
              kzg_commitment = commitment;
              kzg_proof = proof;
              beacon_block_header = header;
              inclusion_proof = inclusion_proof;
            }))))))

  -- The goroutines from `i` on, each with the block as it finds it. Of several errors the first in
  -- the order of the blobs is kept.
  unfoldable pub build_from : (ℕ → BeaconBlock) → BlobsBundle → ℕ → ℕ → Result Sidecars
  build_from seen bundle i zero = ok []
  build_from seen bundle i (suc n) =
      let rest = build_from seen bundle (suc i) n in
      bind_result (build_sidecar (seen i) bundle i)
        (λ sidecar. bind_result rest (λ sidecars. ok (some sidecar ∷ sidecars)))

  -- BuildSidecars
  unfoldable pub build_sidecars : (ℕ → BeaconBlock) → BlobsBundle → Result Sidecars
  build_sidecars seen bundle = build_from seen bundle 0 (length bundle.blobs)
