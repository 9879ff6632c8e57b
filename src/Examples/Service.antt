-- ===== src/Examples/Service.antt =====
-- The theorems on data availability and on the blockchain service, applied on the small chain.
use beacon_kit.Prelude.{[], ◌∷◌, ◌≡◌, some, none, refl, true, false, bytes_eq, ap, add64, mul64}
use beacon_kit.Exec.{ok, slot_mismatch, collect, for_each}
use beacon_kit.Types.{BeaconBlock, equals}
use beacon_kit.Example.{example_processor, example_block, example_state, example_kv, example_header}
use beacon_kit.Collections.Assoc.{assoc}
use beacon_kit.RangeDb.{RangeDb}
use beacon_kit.RangeDb.Memory.{memory}
use beacon_kit.Processor.Block.{transition, process, process_block, copy}
use beacon_kit.Processor.Slots.{process_slots, slot_loop}
use beacon_kit.DataAvailability.{
  BlobSidecar, BlobVerifier, persist, verify_blobs, verify_kzg_proofs, dereference,
}
use beacon_kit.DataAvailability.Stored.{covers}
use beacon_kit.DataAvailability.Verified.{verify_blobs_sound}
use beacon_kit.Blockchain.{
  should_build_optimistic_payloads, Service, plain, rebuild_payload, process_block_and_blobs,
  process_proposal, verify_incoming_block, verify_incoming_blobs,
}
use beacon_kit.Blockchain.Finalized.{finalizes_available}
use beacon_kit.Blockchain.Proposals.{verify_incoming_block_keeps, accepted_state}
use beacon_kit.Examples.Trees.{mixer}
use beacon_kit.Processor.Header.{process_block_header}
use beacon_kit.Processor.Payload.{process_execution_payload, validate_execution_payload}
use beacon_kit.Processor.Withdrawals.{process_withdrawals, apply_withdrawals}
use beacon_kit.StateDb.{decrease_balance, hash_tree_root, read_state, new_state}
use beacon_kit.StateDb.Sweep.{expected_withdrawals, sweep, next_withdrawal}
use beacon_kit.Processor.Randao.{process_randao_reveal, verify_randao_reveal, build_randao_mix}
use beacon_kit.Processor.Deposits.{process_operations, process_deposits}
use beacon_kit.Chain.{slot_to_epoch, active_fork_version_for_slot, within_da_period}
use beacon_kit.BeaconDb.{get_block_root_at_index, state_root_at_index}
use beacon_kit.Merkle.Branches.{is_valid_merkle_branch}

abbrev verifier : BlobVerifier
verifier = record {
  hasher = mixer;
  commitment_root = λ k. ok k;
  header_root = λ h. ok (h.slot ∷ h.body_root);
  verify_blob_proof = λ blob proof commitment. ok tt;
  verify_blob_proof_batch = λ scs. ok tt;
  marshal_ssz = λ sc. ok (1 ∷ sc.blob);
}

-- A sidecar for the commitment 8, the left child of the body root 3 * 8 + 4 + 1.
abbrev sidecar : BlobSidecar
sidecar = record {
  index = 0;
  blob = 6 ∷ [];
  kzg_commitment = 8 ∷ [];
  kzg_proof = [];
  beacon_block_header = record example_header { body_root = 29 ∷ [] };
  inclusion_proof = (4 ∷ []) ∷ [];
}

abbrev empty_db : RangeDb memory
empty_db = record { files = []; first_non_nil_index = 0 }

verify_blobs_sound_example : verify_kzg_proofs verifier (some sidecar ∷ []) ≡ ok tt
unfolding verify_blobs bytes_eq is_valid_merkle_branch add64
verify_blobs_sound_example = (verify_blobs_sound verifier 0 (some sidecar) [] refl).2

abbrev pub service : Service
service = record {
  sp = example_processor;
  verifier = verifier;
  is_accepted_status = λ e. false;
  optimistic_payload_builds = true;
  builder_enabled = true;
  block_error_first = true;
}

-- The block of the small chain, with a blob.
abbrev blob_block : BeaconBlock
blob_block = record example_block {
  body = record example_block.body { blob_kzg_commitments = (8 ∷ []) ∷ [] };
}

finalizes_available_example :
    (process_block_and_blobs {c = assoc} {f = memory} service
      (some blob_block)
      (some (some sidecar ∷ []))
      (example_state, empty_db)).0
    ≡ ok []
unfolding transition persist covers dereference within_da_period process process_slots slot_loop
    process_block process_block_header process_execution_payload validate_execution_payload
    process_withdrawals apply_withdrawals decrease_balance expected_withdrawals sweep
    process_randao_reveal process_operations process_deposits hash_tree_root read_state collect
    for_each bytes_eq equals slot_to_epoch verify_randao_reveal next_withdrawal build_randao_mix
    get_block_root_at_index state_root_at_index new_state active_fork_version_for_slot
finalizes_available_example =
    ap (λ r. r.0)
      (finalizes_available {c = assoc} {f = memory} service blob_block sidecar [] [] example_state
        empty_db
        (persist {f = memory} verifier example_processor.cs 3 (some (some sidecar ∷ [])) empty_db).1
        refl refl refl (refl, tt))

-- A block of slot 2 is behind the state.
abbrev late_block : BeaconBlock
late_block = record example_block { slot = 2 }

verify_incoming_block_keeps_example :
    verify_incoming_block {c = assoc} service true example_state (some late_block) ≡ record {
      error = some (plain slot_mismatch);
      pre_state = example_state;
      tasks = rebuild_payload example_kv ∷ [];
    }
unfolding process process_slots process_block_header should_build_optimistic_payloads
verify_incoming_block_keeps_example =
    verify_incoming_block_keeps {c = assoc} service true example_state late_block slot_mismatch refl

accepted_state_example :
    verify_incoming_blobs service (some blob_block) (some (some sidecar ∷ [])) ≡ none
unfolding is_valid_merkle_branch mul64 process_proposal copy transition process_slots process
    slot_loop process_block process_block_header process_execution_payload
    validate_execution_payload process_withdrawals apply_withdrawals decrease_balance
    expected_withdrawals sweep process_randao_reveal process_operations process_deposits
    hash_tree_root read_state collect for_each bytes_eq equals slot_to_epoch verify_randao_reveal
    next_withdrawal build_randao_mix get_block_root_at_index state_root_at_index new_state
    active_fork_version_for_slot
accepted_state_example =
    (accepted_state {c = assoc} service true example_state blob_block (some (some sidecar ∷ []))
      refl).1
