-- ===== src/Processor/Header.antt =====
-- processBlockHeader of state_processor.go.
pub mod Checks
use beacon_kit.Prelude.{◌==◌, Bytes, not, ltb, leb, bytes_eq, if◌then◌else◌, length}
use beacon_kit.Exec.{
  Exec, pure, raise, lift, ◌>>=◌, ◌>>◌, slot_mismatch, block_slot_too_low, parent_root_mismatch,
  exceeds_block_deposit_limit, slashed_proposer,
}
use beacon_kit.Collections.{Collections}
use beacon_kit.Types.{BeaconBlock, BeaconBlockHeader, zero_root}
use beacon_kit.BeaconDb.{Kv, get_slot, get_latest_block_header, set_latest_block_header}
use beacon_kit.BeaconDb.Registry.{validator_by_index}
use beacon_kit.Processor.{StateProcessor}

-- lbh.New, with the state root zeroed until the next slot is processed.
unfoldable pub new_header : BeaconBlock → Bytes → BeaconBlockHeader
new_header blk body_root = record {
  slot = blk.slot;
  proposer_index = blk.proposer_index;
  parent_block_root = blk.parent_block_root;
  state_root = zero_root;
  body_root = body_root;
}

module _ {c : Collections} (sp : StateProcessor) where
  unfoldable pub process_block_header : BeaconBlock → Exec (Kv c) Unit
  unfolding get_slot get_latest_block_header set_latest_block_header validator_by_index new_header
  process_block_header blk = do
    slot ← get_slot
    if not (blk.slot == slot) then raise slot_mismatch else do
      latest ← get_latest_block_header
      if leb blk.slot latest.slot then raise block_slot_too_low else do
        parent_root ← lift (sp.header_root latest)
        if not (bytes_eq parent_root blk.parent_block_root) then raise parent_root_mismatch else do
          if ltb sp.cs.max_deposits_per_block (length blk.body.deposits)
              then raise exceeds_block_deposit_limit
              else do
                body_root ← lift (sp.body_root blk.body)
                set_latest_block_header (new_header blk body_root)
                proposer ← validator_by_index blk.proposer_index
                if proposer.slashed then raise slashed_proposer else pure tt
