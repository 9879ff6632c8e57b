-- ===== src/Examples/Sidecars.antt =====
-- The theorems on the sidecars of a block that is built, applied over a stand-in for the hash.
use beacon_kit.Prelude.{
  true, false, Bool, [], ◌∷◌, ◌≡◌, refl, arith, false, ◌==◌, ◌^◌, ◌≤◌, ◌<◌, ◌*◌, Bool,
  if◌then◌else◌,
}
use beacon_kit.Exec.{ok, err, bind_result, sidecar_contains_differing_block_roots, Result}
use beacon_kit.Types.{BeaconBlock, BeaconBlockBody}
use beacon_kit.Example.{example_spec, example_block}
use beacon_kit.Examples.Trees.{mixer}
use beacon_kit.DataAvailability.Factory.{
  BlobsBundle, SidecarFactory, build_sidecars, commitment_leaf, header_with,
}
use beacon_kit.DataAvailability.{
  BlobVerifier, Sidecars, validate_block_roots, block_body_kzg_offset, verify_inclusion_proofs,
}
use beacon_kit.DataAvailability.BodyProofs.{IsHashable, container_root, commitments_root}
use beacon_kit.DataAvailability.Included.{IsBundle, build_sidecars_included}
use beacon_kit.Validator.{Surroundings, set_state_root}
use beacon_kit.Math.{next_power_of_two, ilog2_ceil}
use beacon_kit.Validator.Proposal.{block_seen}
use beacon_kit.Validator.Racing.{racing_sidecars_rejected}
use beacon_kit.Chain.{active_fork_version_for_slot}
use beacon_kit.Math.Powers.{next_power_of_two_lem}

abbrev pub blobs_bundle : BlobsBundle
blobs_bundle = record {
  commitments = (1 ∷ []) ∷ (2 ∷ []) ∷ [];
  proofs = (3 ∷ []) ∷ (4 ∷ []) ∷ [];
  blobs = (5 ∷ []) ∷ (6 ∷ []) ∷ [];
}

abbrev body : BeaconBlockBody
body = record example_block.body { blob_kzg_commitments = blobs_bundle.commitments }

abbrev blk : BeaconBlock
blk = record example_block { body = body }

abbrev pub sidecar_factory : SidecarFactory
sidecar_factory = record {
  cs = example_spec;
  kzg_position = 5;
  hasher = mixer;
  routines = 7;
  randao_root = λ b. ok (1 ∷ []);
  eth1_data_root = λ b. ok (2 ∷ []);
  graffiti = λ b. 3 ∷ [];
  deposits_root = λ b. ok (4 ∷ []);
  payload_root = λ b. ok (5 ∷ []);
  body_root = λ b. ok (
      container_root mixer (1 ∷ []) (2 ∷ []) (3 ∷ []) (4 ∷ []) (5 ∷ [])
        (commitments_root mixer 4 b.blob_kzg_commitments));
}

abbrev verifier : BlobVerifier
verifier = record {
  hasher = mixer;
  commitment_root = λ c. ok (commitment_leaf mixer c);
  header_root = λ h. ok (h.slot ∷ h.state_root);
  verify_blob_proof = λ blob proof commitment. ok tt;
  verify_blob_proof_batch = λ scs. ok tt;
  marshal_ssz = λ sc. ok sc.blob;
}

body-IsHashable : IsHashable sidecar_factory 4 body
body-IsHashable = record {
  randao = 1 ∷ [];
  eth1 = 2 ∷ [];
  deposits = 4 ∷ [];
  payload = 5 ∷ [];
  randao_eq = refl;
  eth1_eq = refl;
  deposits_eq = refl;
  payload_eq = refl;
  body_eq = refl;
}

blobs_bundle-IsBundle : IsBundle sidecar_factory verifier 4 body blobs_bundle
blobs_bundle-IsBundle = record {
  listed = refl;
  counted = refl;
  proven = refl;
  within = omega arith;
  limit = refl;
  positive = omega arith;
  small = omega arith;
  position = refl;
  few_routines = omega arith;
  same_hasher = refl;
  rooted = λ c. refl;
}

build_sidecars_included_example :
    bind_result (build_sidecars sidecar_factory (λ i. blk) blobs_bundle) (λ scs.
      bind_result
        (block_body_kzg_offset example_spec 3)
        (λ offset. verify_inclusion_proofs verifier offset scs))
    ≡ ok tt
build_sidecars_included_example =
    build_sidecars_included sidecar_factory verifier 4 body blobs_bundle (λ i. blk) 3 (λ i. refl)
      blobs_bundle-IsBundle body-IsHashable (unfold active_fork_version_for_slot in refl)

-- The second sidecar is built after the state root was set.
abbrev half_way : Surroundings
half_way = record { now = 0; cancelled = false; reads_root = λ i. i == 1 }

abbrev found : Result Sidecars → Sidecars
found (ok scs) = scs
found (err e) = []

abbrev raced : Sidecars
raced = found (build_sidecars sidecar_factory (block_seen half_way blk (9 ∷ [])) blobs_bundle)

found_built :
    (r : Result Sidecars) (f : Sidecars → Result Unit) → bind_result r f ≡ ok tt → r ≡ ok (found r)
found_built (ok scs) f h = refl
found_built (err e) f h = absurd (ground arith)

same_body : (late : Bool) → (if late then set_state_root blk (9 ∷ []) else blk).body ≡ body
unfolding set_state_root
same_body true = refl
same_body false = refl

raced_built :
    build_sidecars sidecar_factory (block_seen half_way blk (9 ∷ [])) blobs_bundle ≡ ok raced
unfolding block_seen
raced_built =
    found_built (build_sidecars sidecar_factory (block_seen half_way blk (9 ∷ [])) blobs_bundle) _ (
      build_sidecars_included sidecar_factory verifier 4 body blobs_bundle
        (block_seen half_way blk (9 ∷ [])) 3 (λ j. same_body (j == 1)) blobs_bundle-IsBundle
        body-IsHashable (unfold active_fork_version_for_slot in refl))

racing_sidecars_rejected_example :
    validate_block_roots verifier raced ≡ err sidecar_contains_differing_block_roots
racing_sidecars_rejected_example =
    racing_sidecars_rejected sidecar_factory verifier blobs_bundle half_way blk (9 ∷ [])
      (container_root mixer (1 ∷ []) (2 ∷ []) (3 ∷ []) (4 ∷ []) (5 ∷ [])
        (commitments_root mixer 4 body.blob_kzg_commitments))
      (3 ∷ example_block.state_root) (3 ∷ 9 ∷ []) refl (unfold header_with in refl)
      (unfold header_with set_state_root in refl) (λ e. absurd (ground arith)) 1 raced raced_built
      refl refl (omega arith)

next_power_of_two_lem_example :
    (next_power_of_two 5 ≡ ok (2 ^ ilog2_ceil 5))
    × (5 ≤ 2 ^ ilog2_ceil 5)
    × (2 ^ ilog2_ceil 5 < 2 * 5)
next_power_of_two_lem_example = next_power_of_two_lem 5 (omega arith) (omega arith)
