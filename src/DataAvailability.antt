-- ===== src/DataAvailability.antt =====
-- mod/da/pkg: the blob sidecars of a block, their checks, and the availability store.
pub mod Verified
pub mod Stored
pub mod Factory
pub mod BodyProofs
pub mod Accepting
pub mod Included
use beacon_kit.Prelude.{
  ℕ, List, [], ◌∷◌, Option, none, some, Bytes, Bool, true, false, ◌%◌, length, if◌then◌else◌,
  bytes_eq, mul64, add64, ◌==◌, not, ◌&&◌, ◌||◌,
}
use beacon_kit.Exec.{
  Result, ok, err, bind_result, Exec, lift, ◌>>=◌, panic, sidecar_contains_differing_block_roots,
  attempted_to_verify_nil_sidecar, invalid_inclusion_proof, attempted_to_store_nil_sidecar,
}
use beacon_kit.Types.{BeaconBlockHeader}
use beacon_kit.Chain.{ChainSpec, within_da_period, active_fork_version_for_slot, version_deneb}
use beacon_kit.Merkle.{Hasher}
use beacon_kit.Merkle.Branches.{is_valid_merkle_branch}
use beacon_kit.RangeDb.{Files, RangeDb, has_value, set_value}

pub record BlobSidecar : Type 0 where
  pub index : ℕ
  pub blob : Bytes
  pub kzg_commitment : Bytes
  pub kzg_proof : Bytes
  pub beacon_block_header : BeaconBlockHeader
  pub inclusion_proof : List Bytes

-- BlobSidecars: a slice of pointers, which may be nil.
abbrev pub Sidecars : Type 0
Sidecars = List (Option BlobSidecar)

-- The SSZ methods of the data, and the KZG library behind the verifier of proofs.
pub record BlobVerifier : Type 0 where
  pub hasher : Hasher
  pub commitment_root : Bytes → Result Bytes
  pub header_root : BeaconBlockHeader → Result Bytes
  pub verify_blob_proof : Bytes → Bytes → Bytes → Result Unit
  -- on the blobs, the proofs and the commitments of the sidecars
  pub verify_blob_proof_batch : List BlobSidecar → Result Unit
  pub marshal_ssz : BlobSidecar → Result Bytes

-- A nil pointer that is followed panics.
unfoldable pub dereference : Option BlobSidecar → Result BlobSidecar
dereference none = err panic
dereference (some sc) = ok sc

-- Of several goroutines, or several joined errors, the first in the order of the source is kept.
unfoldable pub join_errors : Result Unit → Result Unit → Result Unit
join_errors (ok u) r = r
join_errors (err e) r = err e

-- BlockBodyKZGOffset, with KZGMerkleIndexDeneb = 26; it panics for another fork than Deneb.
unfoldable pub block_body_kzg_offset : ChainSpec → ℕ → Result ℕ
block_body_kzg_offset cs slot =
    if active_fork_version_for_slot cs slot == version_deneb
    then ok (mul64 26 cs.max_blob_commitments_per_block)
    else err panic

module _ (v : BlobVerifier) where
  -- HasValidInclusionProof
  unfoldable pub has_valid_inclusion_proof : BlobSidecar → ℕ → Result Bool
  has_valid_inclusion_proof sc kzg_offset = elim (v.commitment_root sc.kzg_commitment) [
    | err e ↦ ok false
    | ok leaf ↦
        is_valid_merkle_branch v.hasher leaf sc.inclusion_proof (length sc.inclusion_proof % 256)
          (add64 kzg_offset sc.index) sc.beacon_block_header.body_root
  ]

  unfoldable pub verify_inclusion_proof : ℕ → Option BlobSidecar → Result Unit
  unfolding has_valid_inclusion_proof
  verify_inclusion_proof kzg_offset none = err attempted_to_verify_nil_sidecar
  verify_inclusion_proof kzg_offset (some sc) =
      bind_result (has_valid_inclusion_proof sc kzg_offset)
        (λ valid. if valid then ok tt else err invalid_inclusion_proof)

  -- VerifyInclusionProofs
  unfoldable pub verify_inclusion_proofs : ℕ → Sidecars → Result Unit
  unfolding verify_inclusion_proof join_errors
  verify_inclusion_proofs kzg_offset [] = ok tt
  verify_inclusion_proofs kzg_offset (sc ∷ scs) =
      let rest = verify_inclusion_proofs kzg_offset scs in
      join_errors (verify_inclusion_proof kzg_offset sc) rest

  unfoldable pub sidecar_root : Option BlobSidecar → Result Bytes
  unfolding dereference
  sidecar_root sc = bind_result (dereference sc) (λ s. v.header_root s.beacon_block_header)

  -- The loop of ValidateBlockRoots, over the sidecars after the first.
  unfoldable pub same_block_roots : Bytes → Sidecars → Result Unit
  unfolding sidecar_root
  same_block_roots first_htr [] = ok tt
  same_block_roots first_htr (sc ∷ scs) =
      let rest = same_block_roots first_htr scs in
      bind_result (sidecar_root sc) (λ next_htr.
        if not (bytes_eq first_htr next_htr)
        then err sidecar_contains_differing_block_roots
        else rest)

  -- ValidateBlockRoots
  unfoldable pub validate_block_roots : Sidecars → Result Unit
  unfolding same_block_roots
  validate_block_roots [] = ok tt
  validate_block_roots (sc ∷ []) = ok tt
  validate_block_roots (sc ∷ next ∷ scs) =
      bind_result (sidecar_root sc) (λ first_htr. same_block_roots first_htr (next ∷ scs))

  -- ArgsFromSidecars, which follows every pointer.
  unfoldable pub args_from_sidecars : Sidecars → Result (List BlobSidecar)
  unfolding dereference
  args_from_sidecars [] = ok []
  args_from_sidecars (sc ∷ scs) =
      let rest = args_from_sidecars scs in
      bind_result (dereference sc) (λ s. bind_result rest (λ ss. ok (s ∷ ss)))

  -- VerifyKZGProofs
  unfoldable pub verify_kzg_proofs : Sidecars → Result Unit
  unfolding args_from_sidecars
  verify_kzg_proofs [] = ok tt
  verify_kzg_proofs (sc ∷ []) =
      bind_result (dereference sc) (λ s. v.verify_blob_proof s.blob s.kzg_proof s.kzg_commitment)
  verify_kzg_proofs (sc ∷ next ∷ scs) =
      bind_result (args_from_sidecars (sc ∷ next ∷ scs)) v.verify_blob_proof_batch

  -- Verifier.VerifyBlobs, whose three parts run in goroutines.
  unfoldable pub verify_blobs : Sidecars → ℕ → Result Unit
  unfolding verify_inclusion_proofs verify_kzg_proofs validate_block_roots
  verify_blobs scs kzg_offset =
      join_errors (verify_inclusion_proofs kzg_offset scs)
        (join_errors (verify_kzg_proofs scs) (validate_block_roots scs))

  -- Processor.VerifyBlobs
  unfoldable pub processor_verify_blobs : ChainSpec → ℕ → Sidecars → Result Unit
  unfolding verify_blobs block_body_kzg_offset
  processor_verify_blobs cs slot scs =
      bind_result (block_body_kzg_offset cs slot) (verify_blobs scs)

module _ {f : Files} (v : BlobVerifier) where
  unfoldable pub store_sidecar : ℕ → Option BlobSidecar → Exec (RangeDb f) Unit
  unfolding set_value
  store_sidecar slot none = lift (err attempted_to_store_nil_sidecar)
  store_sidecar slot (some sc) =
      lift (v.marshal_ssz sc) >>= λ bz. set_value slot sc.kzg_commitment bz

  -- The parallel map of Persist: every sidecar is stored, whatever becomes of the others.
  unfoldable pub store_all : ℕ → Sidecars → Exec (RangeDb f) Unit
  unfolding store_sidecar join_errors
  store_all slot [] db = (ok tt, db)
  store_all slot (sc ∷ scs) db =
      let (r, db') = store_sidecar slot sc db in
      let (rs, db'') = store_all slot scs db' in (join_errors r rs, db'')

  -- Persist, for the sidecars after the test that there is one; Processor.ProcessBlobs is this.
  unfoldable pub persist_from :
      ChainSpec → ℕ → Sidecars → Result BlobSidecar → Exec (RangeDb f) Unit
  unfolding store_all
  persist_from cs slot scs (err e) db = (err e, db)
  persist_from cs slot scs (ok first) db =
      if not (within_da_period cs first.beacon_block_header.slot slot)
      then (ok tt, db)
      else store_all slot scs db

  -- Persist
  unfoldable pub persist : ChainSpec → ℕ → Option Sidecars → Exec (RangeDb f) Unit
  unfolding persist_from
  persist cs slot none db = (ok tt, db)
  persist cs slot (some []) db = (ok tt, db)
  persist cs slot (some (sc ∷ scs)) db = persist_from cs slot (sc ∷ scs) (dereference sc) db

-- IsDataAvailable, over the commitments of the body.
unfoldable pub is_data_available : {f : Files} → RangeDb f → ℕ → List Bytes → Bool
unfolding has_value
is_data_available db slot [] = true
is_data_available db slot (commitment ∷ commitments) =
    let rest = is_data_available db slot commitments in has_value db slot commitment && rest
