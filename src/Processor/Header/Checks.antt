-- ===== src/Processor/Header/Checks.antt =====
-- When processBlockHeader accepts a block, and what it then writes.
use beacon_kit.Prelude.{ℕ, ◌≤◌, ◌<◌, some, Bytes, false, ◌≡◌, ◌↔◌, arith, bytes_eq_iff, length}
use beacon_kit.Exec.{ok}
use beacon_kit.Collections.{Collections}
use beacon_kit.Types.{BeaconBlock, BeaconBlockHeader}
use beacon_kit.Types.Validator.{Validator}
use beacon_kit.BeaconDb.{Kv}
use beacon_kit.Processor.{StateProcessor}
use beacon_kit.Processor.Header.{new_header, process_block_header}

module _ {c : Collections} (sp : StateProcessor) (kv : Kv c) (blk : BeaconBlock) (s : ℕ)
    (h : BeaconBlockHeader) (parent_root body_root : Bytes) (proposer : Validator)
    (slot : c.read kv.slot ≡ some s) (latest : c.read kv.latest_block_header ≡ some h)
    (parent : sp.header_root h ≡ ok parent_root) (body : sp.body_root blk.body ≡ ok body_root)
    (elected : c.validator kv.validators blk.proposer_index ≡ some proposer) where
  -- On a state whose slot, latest header and proposer can be read, with roots that can be computed: a
  -- block's header is accepted exactly if the block is for the state's slot, is later than the latest
  -- header, names that header's root as its parent, holds no more deposits than allowed, and its
  -- proposer is not slashed.
  pub process_block_header_iff : ((process_block_header sp blk kv).0 ≡ ok tt) ↔ (
      (blk.slot ≡ s)
      × (h.slot < blk.slot)
      × (parent_root ≡ blk.parent_block_root)
      × (length blk.body.deposits ≤ sp.cs.max_deposits_per_block)
      × (proposer.slashed ≡ false))
  unfolding process_block_header
  process_block_header_iff = (
    λ e. ground (arith, bytes_eq_iff parent_root blk.parent_block_root),
    λ e. ground (arith, bytes_eq_iff parent_root blk.parent_block_root),
  )

  -- On such a state, an accepted header is stored as the latest one, with the root of the body and
  -- no state root.
  pub process_block_header_writes :
      (process_block_header sp blk kv).0 ≡ ok tt
      → c.read (process_block_header sp blk kv).1.latest_block_header
        ≡ some (new_header blk body_root)
  unfolding process_block_header
  process_block_header_writes e =
      ground (arith, c.read-write kv.latest_block_header (new_header blk body_root))
