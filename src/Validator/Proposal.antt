-- ===== src/Validator/Proposal.antt =====
-- RequestBlockForProposal of mod/beacon/validator/propose.go, and computeStateRoot of state.go.
use beacon_kit.Prelude.{ℕ, List, Option, none, some, Bytes, if◌then◌else◌}
use beacon_kit.Exec.{Result, ok, err, Exec, pure, ◌>>=◌}
use beacon_kit.Types.{BeaconBlock, Deposit}
use beacon_kit.Collections.{Collections}
use beacon_kit.BeaconDb.{Kv, get_eth1_deposit_index}
use beacon_kit.StateDb.{hash_tree_root}
use beacon_kit.Processor.Slots.{process_slots}
use beacon_kit.Processor.Block.{BeaconState, transition}
use beacon_kit.DepositStore.{get_deposits_by_index}
use beacon_kit.PayloadCache.{Cache}
use beacon_kit.PayloadBuilder.{Reply, done, failed, retrieve_payload}
use beacon_kit.DataAvailability.{Sidecars}
use beacon_kit.DataAvailability.Factory.{BlobsBundle, build_sidecars}
use beacon_kit.Validator.{
  Envelope, Outcome, produced, refused, nil_payload, nil_blobs_bundle, nil_deposit_index_start,
  invalid_execution_data, processing_failed, builder_failed, ValidatorService, Surroundings,
  proposal_context, BeaconBlockHeaderBase, with_body, set_state_root, after, build_randao_reveal,
  get_empty_beacon_block_for_slot, retrieve_execution_payload,
}

-- The block as the goroutine of a sidecar finds it, while computeAndSetStateRoot runs.
unfoldable pub block_seen : Surroundings → BeaconBlock → Bytes → ℕ → BeaconBlock
block_seen env blk root i = if env.reads_root i then set_state_root blk root else blk

module _ (vs : ValidatorService) where
  -- The two goroutines at the end, on what computeStateRoot returned. Of two errors the one of the
  -- sidecars is kept.
  unfoldable pub finish_block :
      Surroundings → BeaconBlock → BlobsBundle → Result Bytes → Outcome (BeaconBlock × Sidecars)
  finish_block env blk bundle (ok root) =
      after (build_sidecars vs.factory (block_seen env blk root) bundle)
        (λ sidecars. produced (set_state_root blk root, sidecars))
  finish_block env blk bundle (err e) =
      after (build_sidecars vs.factory (λ i. blk) bundle)
        (λ sidecars. refused (processing_failed e))

module _ {c : Collections} (vs : ValidatorService) where
  -- computeStateRoot: the transition with every check skipped, and the root of what it leaves.
  unfoldable pub compute_state_root : BeaconState c → BeaconBlock → Result Bytes × BeaconState c
  compute_state_root st blk =
      let (outcome, st') = transition vs.sp proposal_context st (some blk) in
      elim outcome [
        | err e ↦ (err e, st')
        | ok updates ↦ ((hash_tree_root vs.sp.state_root vs.sp.cs st'.working).0, st')
      ]

  -- The rest of RequestBlockForProposal once the deposits are there.
  unfoldable pub seal_block :
      Surroundings
      → BeaconState c
      → BeaconBlockHeaderBase
      → Bytes
      → Envelope
      → BlobsBundle
      → List Deposit
      → Outcome (BeaconBlock × Sidecars) × BeaconState c
  seal_block env st base reveal envelope bundle deposits =
      if envelope.is_deneb
      then (let blk = with_body base (record {
        randao_reveal = reveal;
        deposits = deposits;
        execution_payload = envelope.execution_payload;
        blob_kzg_commitments = bundle.commitments;
      }) in
          let (root, st') = compute_state_root st blk in (finish_block vs env blk bundle root, st'))
      else (refused invalid_execution_data, st)

  -- The part of RequestBlockForProposal on the payload that came, if any.
  unfoldable pub block_from_payload :
      Surroundings
      → c.Map Deposit
      → BeaconState c
      → BeaconBlockHeaderBase
      → Bytes
      → Reply (Option Envelope)
      → Outcome (BeaconBlock × Sidecars) × BeaconState c
  block_from_payload env deposit_store st base reveal (failed e) = (refused (builder_failed e), st)
  block_from_payload env deposit_store st base reveal (done none) = (refused nil_payload, st)
  block_from_payload env deposit_store st base reveal (done (some envelope)) =
      elim (envelope.blobs_bundle) [
        | none ↦ (refused nil_blobs_bundle, st)
        | some bundle ↦ elim ((get_eth1_deposit_index st.working).0) [
          | err e ↦ (refused nil_deposit_index_start, st)
          | ok index ↦
              seal_block env st base reveal envelope bundle
                (get_deposits_by_index c deposit_store index vs.sp.cs.max_deposits_per_block)
        ]
      ]

  -- RequestBlockForProposal up to the payload: the slots, the reveal and the empty block.
  unfoldable pub prepare_block : ℕ → Exec (Kv c) (Bytes × BeaconBlockHeaderBase)
  prepare_block slot = do
    updates ← process_slots vs.sp slot
    reveal ← build_randao_reveal vs slot
    base ← get_empty_beacon_block_for_slot vs slot
    pure (reveal, base)

  -- The rest of RequestBlockForProposal.
  unfoldable pub block_from_base :
      Surroundings
      → c.Map Deposit
      → Cache
      → Result (Bytes × BeaconBlockHeaderBase)
      → BeaconState c
      → Outcome (BeaconBlock × Sidecars) × BeaconState c × Cache
  block_from_base env deposit_store cache (err e) st = (refused (processing_failed e), st, cache)
  block_from_base env deposit_store cache (ok (reveal, base)) st =
      let (reply, cache') =
        retrieve_execution_payload vs env st.working base
          (retrieve_payload vs.builder base.slot base.parent_block_root cache) cache in
      let (outcome, st') = block_from_payload env deposit_store st base reveal reply in
      (outcome, st', cache')

  -- RequestBlockForProposal, on the state of the context.
  unfoldable pub request_block_for_proposal :
      Surroundings
      → c.Map Deposit
      → ℕ
      → BeaconState c
      → Cache
      → Outcome (BeaconBlock × Sidecars) × BeaconState c × Cache
  request_block_for_proposal env deposit_store slot st cache =
      let (base, kv) = prepare_block slot st.working in
      block_from_base env deposit_store cache base (record st { working = kv })
