-- ===== src/Validator/Drafts.antt =====
-- What the validator service has done when it produces a block.
use beacon_kit.Prelude.{
  Option, none, ℕ, sub64, ◌≡◌, refl, arith, Bytes, ap, ◌∙◌, some, List, inl, inr,
}
use beacon_kit.Exec.{Result, ok, err, lift, modulo, bind_result, ◌>>=◌}
use beacon_kit.Exec.Reads.{IsReader, IsReader-result, IsReader-bind}
use beacon_kit.Exec.Success.{Succeeds, >>=-Succeeds, Result-cases}
use beacon_kit.Collections.{Collections}
use beacon_kit.BeaconDb.{
  Kv, get_genesis_validators_root, get_block_root_at_index, get_eth1_deposit_index,
}
use beacon_kit.Types.{BeaconBlock, Deposit, ValidatorUpdate}
use beacon_kit.Validator.{
  ValidatorService, build_randao_reveal, Surroundings, BeaconBlockHeaderBase,
  get_empty_beacon_block_for_slot, produced, set_state_root, new_with_version, Envelope, after,
  with_body, retrieve_execution_payload,
}
use beacon_kit.Processor.Block.{BeaconState}
use beacon_kit.Validator.Proposal.{
  prepare_block, compute_state_root, request_block_for_proposal, seal_block, finish_block,
  block_seen, block_from_payload, block_from_base,
}
use beacon_kit.PayloadCache.{Cache}
use beacon_kit.DataAvailability.{Sidecars}
use beacon_kit.Processor.Slots.{process_slots}
use beacon_kit.DataAvailability.Factory.{BlobsBundle, build_sidecars}
use beacon_kit.BeaconDb.Registry.{validator_index_by_pubkey}
use beacon_kit.PayloadBuilder.{Reply, failed, retrieve_payload, done}
use beacon_kit.DepositStore.{get_deposits_by_index}

module _ (vs : ValidatorService) (env : Surroundings) (draft : BeaconBlock)
    (bundle : BlobsBundle) where
  -- Both goroutines have succeeded when a block is produced.
  finished :
      (r : Result Bytes) (blk : BeaconBlock) (scs : Sidecars)
      → finish_block vs env draft bundle r ≡ produced (blk, scs)
      → (root : Bytes) × (r ≡ ok root) × (blk ≡ set_state_root draft root)
  unfolding finish_block after
  finished (ok root) blk scs h =
      elim (Result-cases (build_sidecars vs.factory (block_seen env draft root) bundle)) [
        | inl (built, e) ↦ (root, refl, ground arith)
        | inr (x, e) ↦ absurd (ground arith)
      ]
  finished (err x) blk scs h = elim (Result-cases (build_sidecars vs.factory (λ i. draft) bundle)) [
    | inl (built, e) ↦ absurd (ground arith)
    | inr (y, e) ↦ absurd (ground arith)
  ]

module _ {c : Collections} (vs : ValidatorService) where
  -- The two calls at the end leave the state alone.
  signed :
      (r : Result Bytes) (kv : Kv c)
      → (lift r >>= λ root. lift (vs.sign root)) kv ≡ (bind_result r vs.sign, kv)
  signed (ok root) kv = refl
  signed (err e) kv = refl

  reveal-IsReader : (slot : ℕ) → IsReader (build_randao_reveal {c = c} vs slot)
  unfolding build_randao_reveal get_genesis_validators_root
  reveal-IsReader slot =
      IsReader-bind {A = Bytes} get_genesis_validators_root _ (IsReader-result _)
        (λ genesis. record { at = λ kv. ap (λ x. x.1) (signed _ kv) })

  empty_block_drafted :
      (slot : ℕ) (kv kv' : Kv c) (base : BeaconBlockHeaderBase)
      → Succeeds (get_empty_beacon_block_for_slot vs slot) kv base kv'
      → (kv' ≡ kv) × (base.slot ≡ slot)
  unfolding get_empty_beacon_block_for_slot new_with_version get_block_root_at_index
      validator_index_by_pubkey
  empty_block_drafted slot kv kv' base h =
      let (place, kv0, h0, r0) =
        >>=-Succeeds (lift (modulo (sub64 slot 1) vs.sp.cs.slots_per_historical_root)) _ kv base kv'
          h in
      let (root, kv1, h1, r1) = >>=-Succeeds (get_block_root_at_index place) _ kv0 base kv' r0 in
      let (proposer, kv2, h2, r2) =
        >>=-Succeeds (validator_index_by_pubkey vs.public_key) _ kv1 base kv' r1 in
      (ground arith, ground arith)

  -- The slots are processed, and nothing else changes the state before the block is filled.
  prepared :
      (slot : ℕ) (kv kv' : Kv c) (reveal : Bytes) (base : BeaconBlockHeaderBase)
      → Succeeds (prepare_block vs slot) kv (reveal, base) kv'
      → (us : List ValidatorUpdate) × Succeeds (process_slots vs.sp slot) kv us kv'
        × (base.slot ≡ slot)
  unfolding prepare_block
  prepared slot kv kv' reveal base h =
      let (us, kv2, h1, r1) = >>=-Succeeds (process_slots vs.sp slot) _ kv (reveal, base) kv' h in
      let (v, kv3, h2, r2) =
        >>=-Succeeds (build_randao_reveal vs slot) _ kv2 (reveal, base) kv' r1 in
      let (b, kv4, h3, r3) =
        >>=-Succeeds (get_empty_beacon_block_for_slot vs slot) _ kv3 (reveal, base) kv' r2 in
      let (same, at_slot) = empty_block_drafted slot kv3 kv4 b h3 in
      let read = (reveal-IsReader slot).at kv2 in
      let q : kv' ≡ kv2 = ground arith in (us, ground arith, ground arith)

  -- The block is a draft for the slot, with the root that computeStateRoot gives it.
  abbrev Drafted : ℕ → BeaconState c → BeaconState c → BeaconBlock → Type 0
  Drafted slot st st' blk =
      (draft : BeaconBlock) × (root : Bytes) × (draft.slot ≡ slot)
      × (compute_state_root vs st draft ≡ (ok root, st'))
      × (blk ≡ set_state_root draft root)

  sealed :
      (env : Surroundings) (st st' : BeaconState c) (base : BeaconBlockHeaderBase) (reveal : Bytes)
      (envelope : Envelope) (bundle : BlobsBundle) (deposits : List Deposit) (blk : BeaconBlock)
      (scs : Sidecars)
      → seal_block vs env st base reveal envelope bundle deposits ≡ (produced (blk, scs), st')
      → Drafted base.slot st st' blk
  unfolding seal_block
  sealed env st st' base reveal envelope bundle deposits blk scs h =
      let draft = with_body base (record {
        randao_reveal = reveal;
        deposits = deposits;
        execution_payload = envelope.execution_payload;
        blob_kzg_commitments = bundle.commitments;
      }) in
      let parts : (finish_block vs env draft bundle (compute_state_root vs st draft).0
            ≡ produced (blk, scs))
          × ((compute_state_root vs st draft).1 ≡ st') =
        ground arith in
      let (root, e, q) =
        finished vs env draft bundle (compute_state_root vs st draft).0 blk scs parts.0 in
      (draft, root, unfold with_body in refl, ground arith, q)

  -- A block is sealed only on a payload with a bundle of blobs, and with an index for the deposits.
  paid :
      (env : Surroundings) (deposit_store : c.Map Deposit) (st st' : BeaconState c)
      (base : BeaconBlockHeaderBase) (reveal : Bytes) (reply : Reply (Option Envelope))
      (blk : BeaconBlock) (scs : Sidecars)
      → block_from_payload vs env deposit_store st base reveal reply ≡ (produced (blk, scs), st')
      → Drafted base.slot st st' blk
  unfolding block_from_payload
  paid env deposit_store st st' base reveal (failed e) blk scs h = absurd (ground arith)
  paid env deposit_store st st' base reveal (done none) blk scs h = absurd (ground arith)
  paid env deposit_store st st' base reveal (done (some envelope)) blk scs h =
      elim (envelope.blobs_bundle)
          as (λ b. envelope.blobs_bundle ≡ b → Drafted base.slot st st' blk) [
            | none ↦ λ e. absurd (ground arith)
            | some bundle ↦ λ e. elim (Result-cases ((get_eth1_deposit_index st.working).0)) [
              | inl (index, e') ↦
                  sealed env st st' base reveal envelope bundle
                    (get_deposits_by_index c deposit_store index vs.sp.cs.max_deposits_per_block)
                    blk scs (ground arith)
              | inr (x, e') ↦ absurd (ground arith)
            ]
          ]
        refl

  -- A block that is produced is a draft for the slot asked for, with the root that computeStateRoot gives.
  pub drafted :
      (env : Surroundings) (deposit_store : c.Map Deposit) (slot : ℕ) (st st' : BeaconState c)
      (cache cache' : Cache) (blk : BeaconBlock) (scs : Sidecars)
      → request_block_for_proposal vs env deposit_store slot st cache
        ≡ (produced (blk, scs), st', cache')
      → (kv : Kv c) × (us : List ValidatorUpdate) × Succeeds
          (process_slots vs.sp slot)
          st.working
          us
          kv
        × Drafted slot (record st { working = kv }) st' blk
  unfolding request_block_for_proposal block_from_base
  drafted env deposit_store slot st st' cache cache' blk scs h =
      elim (Result-cases ((prepare_block vs slot st.working).0)) [
        | inl ((reveal, base), e) ↦
            let kv = (prepare_block vs slot st.working).1 in
            let ready = record st { working = kv } in
            let reply =
              retrieve_execution_payload vs env kv base
                (retrieve_payload vs.builder base.slot base.parent_block_root cache) cache in
            let (us, moved, at_slot) = prepared slot st.working kv reveal base (ground arith) in
            let (draft, root, q, rooted, r) =
              paid env deposit_store ready st' base reveal reply.0 blk scs (ground arith) in
            (kv, us, moved, (draft, root, q ∙ at_slot, rooted, r))
        | inr (x, e) ↦ absurd (ground arith)
      ]
