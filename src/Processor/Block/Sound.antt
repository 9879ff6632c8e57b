-- ===== src/Processor/Block/Sound.antt =====
-- What the state is once a block is accepted, and what becomes of a second one.
use beacon_kit.Prelude.{
  ℕ, ◌==◌, if◌then◌else◌, true, some, refl, ◌≡◌, Bytes, ◌⊎◌, arith, bytes_eq_iff, inl, inr, ap, ◌∙◌,
}
use beacon_kit.Exec.{ok, err, Result, Error, block_slot_too_low, slot_mismatch}
use beacon_kit.Exec.Success.{Succeeds, >>=-Succeeds}
use beacon_kit.Collections.{Collections}
use beacon_kit.BeaconDb.{Kv}
use beacon_kit.Processor.{StateProcessor}
use beacon_kit.Processor.Block.Keeps.{
  process_withdrawals-IsKeeping, process_randao_reveal-IsKeeping, process_operations-IsKeeping,
}
use beacon_kit.Types.{Context, BeaconBlock, BeaconBlockHeader, ExecutionPayloadHeader}
use beacon_kit.Processor.Header.{process_block_header, new_header}
use beacon_kit.Processor.Payload.{process_execution_payload}
use beacon_kit.Processor.Block.{validate_result, process_block}
use beacon_kit.StateDb.{hash_tree_root}
use beacon_kit.Processor.Deposits.{process_operations}
use beacon_kit.StateDb.Hashing.{hash_tree_root-IsReader}
use beacon_kit.Processor.Randao.{process_randao_reveal}
use beacon_kit.Processor.Withdrawals.{process_withdrawals}

module _ {c : Collections} (sp : StateProcessor) (ctx : Context) (blk : BeaconBlock) where
  header_stored :
      (kv kv1 : Kv c)
      → Succeeds (process_block_header sp blk) kv tt kv1
      → (c.read kv1.slot ≡ some blk.slot)
        × ((root : Bytes) × (sp.body_root blk.body ≡ ok root)
            × (c.read kv1.latest_block_header ≡ some (new_header blk root)))
  unfolding process_block_header
  header_stored kv kv1 h = go (sp.body_root blk.body) refl
    where
      go :
          (r : Result Bytes)
          → sp.body_root blk.body ≡ r
          → (c.read kv1.slot ≡ some blk.slot)
            × ((root : Bytes) × (sp.body_root blk.body ≡ ok root)
                × (c.read kv1.latest_block_header ≡ some (new_header blk root)))
      go (ok root) e = (
        ground arith,
        (root, e, ground (arith, c.read-write kv.latest_block_header (new_header blk root))),
      )
      go (err x) e = absurd (ground arith)

  payload_stored :
      (kv kv1 : Kv c)
      → Succeeds (process_execution_payload sp ctx blk) kv tt kv1
      → (kv1.slot ≡ kv.slot)
        × (kv1.latest_block_header ≡ kv.latest_block_header)
        × ((header : ExecutionPayloadHeader) × (sp.payload_to_header blk.body.execution_payload
              ≡ ok header)
            × (c.read kv1.latest_execution_payload_header ≡ some header))
  unfolding process_execution_payload
  payload_stored kv kv1 h = go (sp.payload_to_header blk.body.execution_payload) refl
    where
      go :
          (r : Result ExecutionPayloadHeader)
          → sp.payload_to_header blk.body.execution_payload ≡ r
          → (kv1.slot ≡ kv.slot)
            × (kv1.latest_block_header ≡ kv.latest_block_header)
            × ((header : ExecutionPayloadHeader) × (sp.payload_to_header blk.body.execution_payload
                  ≡ ok header)
                × (c.read kv1.latest_execution_payload_header ≡ some header))
      go (ok header) e = (
        ground arith,
        ground arith,
        (header, e, ground (arith, c.read-write kv.latest_execution_payload_header header)),
      )
      go (err x) e = absurd (ground arith)

  result_validated :
      (kv kv1 : Kv c)
      → Succeeds (validate_result sp ctx blk) kv tt kv1
      → (kv1 ≡ kv)
        × ((ctx.skip_validate_result ≡ true)
            ⊎ ((hash_tree_root sp.state_root sp.cs kv).0 ≡ ok blk.state_root))
  unfolding validate_result
  result_validated kv kv1 h = go ((hash_tree_root sp.state_root sp.cs kv).0) refl
    where
      go :
          (r : Result Bytes)
          → (hash_tree_root sp.state_root sp.cs kv).0 ≡ r
          → (kv1 ≡ kv)
            × ((ctx.skip_validate_result ≡ true)
                ⊎ ((hash_tree_root sp.state_root sp.cs kv).0 ≡ ok blk.state_root))
      go (ok root) e = ground (
        arith,
        (hash_tree_root-IsReader sp.state_root sp.cs).at kv,
        bytes_eq_iff blk.state_root root,
      )
      go (err x) e = ground (arith, (hash_tree_root-IsReader sp.state_root sp.cs).at kv)

  -- After a block is accepted, the state is at the block's slot; its latest block header is the
  -- block's, with the root of the body and no state root yet; its latest payload header is that of the
  -- block's payload; and the state's root is the one that the block names, unless the check of the
  -- result is skipped.
  pub process_block_sound :
      (kv kv' : Kv c)
      → process_block sp ctx blk kv ≡ (ok tt, kv')
      → (c.read kv'.slot ≡ some blk.slot)
        × ((root : Bytes) × (sp.body_root blk.body ≡ ok root)
            × (c.read kv'.latest_block_header ≡ some (new_header blk root)))
        × ((header : ExecutionPayloadHeader) × (sp.payload_to_header blk.body.execution_payload
              ≡ ok header)
            × (c.read kv'.latest_execution_payload_header ≡ some header))
        × ((ctx.skip_validate_result ≡ true)
            ⊎ ((hash_tree_root sp.state_root sp.cs kv').0 ≡ ok blk.state_root))
  unfolding process_block
  process_block_sound kv kv' h =
      let (u1, kv1, h1, r1) = >>=-Succeeds (process_block_header sp blk) _ kv tt kv' h in
      let (u2, kv2, h2, r2) = >>=-Succeeds (process_execution_payload sp ctx blk) _ kv1 tt kv' r1 in
      let (u3, kv3, h3, r3) = >>=-Succeeds (process_withdrawals sp blk.body) _ kv2 tt kv' r2 in
      let (u4, kv4, h4, r4) =
        >>=-Succeeds (process_randao_reveal sp blk ctx.skip_validate_randao) _ kv3 tt kv' r3 in
      let (u5, kv5, h5, h6) = >>=-Succeeds (process_operations sp blk) _ kv4 tt kv' r4 in
      let (slot, (root, rooted, latest)) = header_stored kv kv1 h1 in
      let (slot2, latest2, (header, headed, payload)) = payload_stored kv1 kv2 h2 in
      let (same, validated) = result_validated kv5 kv' h6 in
      let (e3, f3, p3) = (process_withdrawals-IsKeeping sp blk.body).at kv2 in
      let (e4, f4, p4) = (process_randao_reveal-IsKeeping sp blk ctx.skip_validate_randao).at kv3 in
      let (e5, f5, p5) = (process_operations-IsKeeping sp blk).at kv4 in
      (
        cc,
        (root, rooted, cc),
        (header, headed, cc),
        elim validated [
          | inl skipped ↦ inl skipped
          | inr e ↦ inr (ap (λ k. (hash_tree_root sp.state_root sp.cs k).0) same ∙ e)
        ],
      )

module _ {c : Collections} (sp : StateProcessor) (kv : Kv c) (other : BeaconBlock) where
  -- The check of the header, on a state at the slot of its latest header.
  header_refused :
      (s : ℕ) (latest : BeaconBlockHeader)
      → c.read kv.slot ≡ some s
      → c.read kv.latest_block_header ≡ some latest
      → latest.slot ≡ s
      → process_block_header sp other kv
        ≡ (err (if other.slot == s then block_slot_too_low else slot_mismatch), kv)
  unfolding process_block_header
  header_refused s latest slot header same = ground arith

  block_refused :
      (ctx : Context) (e : Error)
      → process_block_header sp other kv ≡ (err e, kv)
      → process_block sp ctx other kv ≡ (err e, kv)
  unfolding process_block
  block_refused ctx e h = rw h refl

-- Once ProcessBlock has accepted a block, every further block, in any context, is rejected on the
-- state that it left, a block of the same slot as too low and one of another slot for its slot, and
-- that state is left as it is.
pub one_block_per_slot :
    {c : Collections} (sp : StateProcessor) (ctx ctx' : Context) (blk other : BeaconBlock)
    (kv kv' : Kv c)
    → process_block sp ctx blk kv ≡ (ok tt, kv')
    → process_block sp ctx' other kv'
      ≡ (err (if other.slot == blk.slot then block_slot_too_low else slot_mismatch), kv')
one_block_per_slot sp ctx ctx' blk other kv kv' h =
    let (slot, (root, rooted, latest), payload, result) = process_block_sound sp ctx blk kv kv' h in
    block_refused sp kv' other ctx' _ (
      header_refused sp kv' other blk.slot (new_header blk root) slot latest
        (unfold new_header in refl))
