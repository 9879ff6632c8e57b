-- ===== src/Processor/Payload/Checks.antt =====
-- What an accepted execution payload has passed, and the two goroutines that check it.
use beacon_kit.Collections.{Collections}
use beacon_kit.Processor.{StateProcessor, Bool, ExecutionPayloadHeader, ℕ}
use beacon_kit.BeaconDb.{Kv}
use beacon_kit.Processor.Payload.{
  validate_execution_payload, BeaconBlock, ok, slot_to_epoch, process_execution_payload,
  new_payload_request,
}
use beacon_kit.Types.{Context}
use beacon_kit.Prelude.{
  ◌≡◌, Bytes, arith, false, some, ◌%◌, ◌↔◌, ◌⊎◌, length, ◌≤◌, bytes_eq_iff, refl,
}
use beacon_kit.Exec.{Error, err, Result}

module _ {c : Collections} (sp : StateProcessor) (kv : Kv c) where
  -- On a state with a slot, a latest payload header and a mix at the place of its epoch: a payload
  -- passes verification exactly if it extends the latest payload, the execution engine accepts it,
  -- it carries that mix, and it keeps to the limits on blobs and on withdrawals.
  pub validated_payload :
      (blk : BeaconBlock) (optimistic : Bool) (s v : ℕ) (lph : ExecutionPayloadHeader) (mix : Bytes)
      → c.read kv.slot ≡ some s
      → c.read kv.latest_execution_payload_version ≡ some v
      → c.read kv.latest_execution_payload_header ≡ some lph
      → c.get kv.randao_mix (slot_to_epoch sp.cs s % sp.cs.epochs_per_historical_vector) ≡ some mix
      → ((validate_execution_payload sp blk optimistic kv).0 ≡ ok tt) ↔ (
          (blk.body.execution_payload.parent_hash ≡ lph.block_hash)
          × (sp.verify_and_notify_new_payload (new_payload_request sp blk optimistic) ≡ ok tt)
          × (blk.body.execution_payload.prev_randao ≡ mix)
          × (length blk.body.blob_kzg_commitments ≤ sp.cs.max_blobs_per_block)
          × (length blk.body.execution_payload.withdrawals ≤ sp.cs.max_withdrawals_per_payload))
  unfolding validate_execution_payload
  validated_payload blk optimistic s v lph mix h1 h2 h3 h4 = (
    λ e. ground (
      arith,
      bytes_eq_iff lph.block_hash blk.body.execution_payload.parent_hash,
      bytes_eq_iff blk.body.execution_payload.prev_randao mix,
    ),
    λ e. ground (
      arith,
      bytes_eq_iff lph.block_hash blk.body.execution_payload.parent_hash,
      bytes_eq_iff blk.body.execution_payload.prev_randao mix,
    ),
  )

  -- Verification writes nothing: the store that it is run on comes back from it.
  validate_reads :
      (blk : BeaconBlock) (optimistic : Bool)
      → (validate_execution_payload sp blk optimistic kv).1 ≡ kv
  unfolding validate_execution_payload
  validate_reads blk optimistic = ground arith

  -- If the payload is verified, or verification is skipped, and the payload has a header, then
  -- processing succeeds whichever goroutine is first, stores that header as the latest, and leaves
  -- the registry and the balances.
  process_payload_accepts :
      (ctx : Context) (blk : BeaconBlock) (header : ExecutionPayloadHeader)
      → (ctx.skip_payload_verification ≡ false
          → (validate_execution_payload sp blk ctx.optimistic_engine kv).0 ≡ ok tt)
      → sp.payload_to_header blk.body.execution_payload ≡ ok header
      → ((process_execution_payload sp ctx blk kv).0 ≡ ok tt)
        × (c.read (process_execution_payload sp ctx blk kv).1.latest_execution_payload_header
            ≡ some header)
        × ((process_execution_payload sp ctx blk kv).1.validators ≡ kv.validators)
        × ((process_execution_payload sp ctx blk kv).1.balances ≡ kv.balances)
  unfolding process_execution_payload
  process_payload_accepts ctx blk header v h =
      ground (arith, c.read-write kv.latest_execution_payload_header header)

  -- If verification is not skipped and fails, or the payload has no header, then processing fails
  -- whichever goroutine is first, and leaves the whole state as it was.
  pub process_payload_rejects :
      (ctx : Context) (blk : BeaconBlock) (e : Error)
      → ((ctx.skip_payload_verification ≡ false)
          × ((validate_execution_payload sp blk ctx.optimistic_engine kv).0 ≡ err e))
        ⊎ (sp.payload_to_header blk.body.execution_payload ≡ err e)
      → (e' : Error) × (process_execution_payload sp ctx blk kv ≡ (err e', kv))
  unfolding process_execution_payload
  process_payload_rejects ctx blk e h = go ((process_execution_payload sp ctx blk kv).0) refl
    where
      go :
          (r : Result Unit)
          → (process_execution_payload sp ctx blk kv).0 ≡ r
          → (e' : Error) × (process_execution_payload sp ctx blk kv ≡ (err e', kv))
      go (ok u) q = absurd (ground arith)
      go (err e') q = (e', ground arith)
