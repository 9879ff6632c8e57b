-- ===== src/Processor/Payload.antt =====
-- state_processor_payload.go.
pub mod Checks
use beacon_kit.Prelude.{
  ◌%◌, ◌∷◌, map, Bytes, Bool, true, false, not, ltb, bytes_eq, if◌then◌else◌, length, drop,
}
use beacon_kit.Exec.{
  Result, ok, err, Exec, pure, raise, lift, ◌>>=◌, ◌>>◌, parent_payload_hash_mismatch,
  randao_mix_mismatch, exceeds_block_blob_limit, too_many_withdrawals,
}
use beacon_kit.Chain.{slot_to_epoch}
use beacon_kit.Collections.{Collections}
use beacon_kit.Types.{BeaconBlock, Context, NewPayloadRequest, ExecutionPayloadHeader}
use beacon_kit.BeaconDb.{
  Kv, get_slot, get_latest_execution_payload_header, get_randao_mix_at_index,
  set_latest_execution_payload_header,
}
use beacon_kit.Processor.{StateProcessor}

-- KZGCommitment.ToVersionedHash: the SHA-256 with its first byte set to BlobCommitmentVersion.
unfoldable pub to_versioned_hash : StateProcessor → Bytes → Bytes
to_versioned_hash sp commitment = 1 ∷ drop 1 (sp.sha256 commitment)

unfoldable pub new_payload_request : StateProcessor → BeaconBlock → Bool → NewPayloadRequest
unfolding to_versioned_hash
new_payload_request sp blk optimistic = record {
  execution_payload = blk.body.execution_payload;
  versioned_hashes = map (to_versioned_hash sp) blk.body.blob_kzg_commitments;
  parent_beacon_block_root = blk.parent_block_root;
  optimistic = optimistic;
}

-- errgroup: Wait returns the first error that a goroutine returned.
unfoldable pub first_error :
    Bool → Result Unit → Result ExecutionPayloadHeader → Result ExecutionPayloadHeader
first_error header_first (ok _) r = r
first_error header_first (err e) (ok _) = err e
first_error true (err e) (err e') = err e'
first_error false (err e) (err e') = err e

module _ {c : Collections} (sp : StateProcessor) where
  unfoldable pub validate_execution_payload : BeaconBlock → Bool → Exec (Kv c) Unit
  unfolding get_latest_execution_payload_header get_slot get_randao_mix_at_index slot_to_epoch
      new_payload_request
  validate_execution_payload blk optimistic_engine = do
    lph ← get_latest_execution_payload_header
    if not (bytes_eq lph.block_hash blk.body.execution_payload.parent_hash)
        then raise parent_payload_hash_mismatch
        else do
          lift (sp.verify_and_notify_new_payload (new_payload_request sp blk optimistic_engine))
          slot ← get_slot
          expected_mix ←
              get_randao_mix_at_index
                (slot_to_epoch sp.cs slot % sp.cs.epochs_per_historical_vector)
          if not (bytes_eq blk.body.execution_payload.prev_randao expected_mix)
              then raise randao_mix_mismatch
              else if ltb sp.cs.max_blobs_per_block (length blk.body.blob_kzg_commitments)
              then raise exceeds_block_blob_limit
              else if ltb sp.cs.max_withdrawals_per_payload
                  (length blk.body.execution_payload.withdrawals)
              then raise too_many_withdrawals
              else pure tt

  -- The result of the first goroutine; it writes nothing to the state.
  unfoldable pub verification : Context → BeaconBlock → Kv c → Result Unit
  verification ctx blk kv =
      if ctx.skip_payload_verification
      then ok tt
      else (validate_execution_payload blk ctx.optimistic_engine kv).0

  unfoldable pub process_execution_payload : Context → BeaconBlock → Exec (Kv c) Unit
  unfolding verification first_error set_latest_execution_payload_header
  process_execution_payload ctx blk = do
    header ← λ kv. (
      first_error sp.header_first (verification ctx blk kv)
          (sp.payload_to_header blk.body.execution_payload),
      kv,
    )
    set_latest_execution_payload_header header
