-- ===== src/Blockchain/Building.antt =====
-- mod/beacon/blockchain/payload.go and execution_engine.go: the payload requests that the service
-- makes beside the processing of blocks. Their errors are logged by the callers.
pub mod Retrieved
use beacon_kit.Prelude.{ℕ, Option, none, Bytes, max, add64, ◌≡◌, some, if◌then◌else◌, not, ◌&&◌}
use beacon_kit.Exec.{Result, Exec, lift, pure, ◌>>=◌, err, ok}
use beacon_kit.Types.{BeaconBlock, ExecutionPayloadHeader}
use beacon_kit.Chain.{active_fork_version_for_slot}
use beacon_kit.Collections.{Collections}
use beacon_kit.BeaconDb.{Kv, get_slot, get_latest_block_header, get_latest_execution_payload_header}
use beacon_kit.StateDb.{hash_tree_root}
use beacon_kit.Processor.Slots.{process_slots}
use beacon_kit.Engine.{EngineError, notify_forkchoice_update}
use beacon_kit.PayloadBuilder.{
  PayloadBuilder, request_payload_async, send_force_head_fcu, BuilderError, Reply, failed, done,
  state_error, retrieve_payload, retrieved, engine_error,
}
use beacon_kit.Blockchain.{
  Service, should_build_optimistic_payloads, Task, force_startup_head, rebuild_payload,
  build_optimistic_payload,
}
use beacon_kit.PayloadCache.{Cache}

-- The arguments of RequestPayloadAsync.
pub record PayloadRequest : Type 0 where
  pub slot : ℕ
  pub timestamp : ℕ
  pub parent_block_root : Bytes
  pub head_block_hash : Bytes
  pub final_block_hash : Bytes

-- calculateNextTimestamp; `now` is time.Now().Unix().
unfoldable pub calculate_next_timestamp : Service → ℕ → BeaconBlock → ℕ
calculate_next_timestamp svc now blk =
    max (add64 now svc.sp.cs.target_seconds_per_eth1_block)
      (add64 blk.body.execution_payload.timestamp 1)

-- sendNextFCUWithoutAttributes
unfoldable pub fcu_without_attributes :
    {E : Type 0} → PayloadBuilder E → BeaconBlock → ExecutionPayloadHeader → Option EngineError
fcu_without_attributes pb blk lph =
    (notify_forkchoice_update pb.client (record {
      state = record {
        head_block_hash = lph.block_hash;
        safe_block_hash = lph.parent_hash;
        finalized_block_hash = lph.parent_hash;
      };
      payload_attributes = none;
      fork_version = active_fork_version_for_slot pb.cs blk.slot;
    })).2

-- `block_root` is the SSZ root of a block.
module _ {c : Collections} (svc : Service) (block_root : BeaconBlock → Result Bytes) where
  -- rebuildPayloadForRejectedBlock, up to the request.
  unfoldable pub rebuild_request : ℕ → Exec (Kv c) PayloadRequest
  rebuild_request now = do
    latest_header ← get_latest_block_header
    state_slot ← get_slot
    prev_state_root ← hash_tree_root svc.sp.state_root svc.sp.cs
    prev_block_root ←
        lift (svc.sp.header_root (record latest_header { state_root = prev_state_root }))
    lph ← get_latest_execution_payload_header
    pure (record {
      slot = state_slot;
      timestamp = max (add64 now 1) (add64 lph.timestamp 1);
      parent_block_root = prev_block_root;
      head_block_hash = lph.block_hash;
      final_block_hash = lph.block_hash;
    })

  -- optimisticPayloadBuild, up to the request.
  unfoldable pub optimistic_request : ℕ → BeaconBlock → Exec (Kv c) PayloadRequest
  unfolding calculate_next_timestamp
  optimistic_request now blk = do
    blk_root ← lift (block_root blk)
    updates ← process_slots svc.sp (add64 blk.slot 1)
    pure (record {
      slot = add64 blk.slot 1;
      timestamp = calculate_next_timestamp svc now blk;
      parent_block_root = blk_root;
      head_block_hash = blk.body.execution_payload.block_hash;
      final_block_hash = blk.body.execution_payload.parent_hash;
    })

  -- sendNextFCUWithAttributes, on the copy of the state, up to the request.
  unfoldable pub next_request :
      ℕ → BeaconBlock → ExecutionPayloadHeader → Exec (Kv c) PayloadRequest
  unfolding calculate_next_timestamp
  next_request now blk lph = do
    updates ← process_slots svc.sp (add64 blk.slot 1)
    prev_block_root ← lift (block_root blk)
    pure (record {
      slot = add64 blk.slot 1;
      timestamp = calculate_next_timestamp svc now blk;
      parent_block_root = prev_block_root;
      head_block_hash = lph.block_hash;
      final_block_hash = lph.parent_hash;
    })

module _ {c : Collections} {E : Type 0} (svc : Service) (pb : PayloadBuilder E)
    (block_root : BeaconBlock → Result Bytes) where
  -- RequestPayloadAsync on the state that the preparation of the request left.
  unfoldable pub run_request : Result PayloadRequest × Kv c → Cache → Reply (Option Bytes) × Cache
  unfolding request_payload_async
  run_request (err e, st) cache = (failed (state_error e), cache)
  run_request (ok req, st) cache =
      request_payload_async pb st req.slot req.timestamp req.parent_block_root req.head_block_hash
        req.final_block_hash cache

  -- rebuildPayloadForRejectedBlock
  unfoldable pub rebuild_payload_for_rejected_block :
      ℕ → Kv c → Cache → Reply (Option Bytes) × Cache
  unfolding run_request rebuild_request
  rebuild_payload_for_rejected_block now st cache =
      run_request (rebuild_request svc block_root now st) cache

  -- optimisticPayloadBuild
  unfoldable pub optimistic_payload_build :
      ℕ → BeaconBlock → Kv c → Cache → Reply (Option Bytes) × Cache
  unfolding run_request optimistic_request
  optimistic_payload_build now blk st cache =
      run_request (optimistic_request svc block_root now blk st) cache

  -- sendPostBlockFCU, once the latest header is read. The reply to an update without attributes has
  -- no payload id.
  unfoldable pub next_fcu :
      ℕ → BeaconBlock → Kv c → Result ExecutionPayloadHeader → Cache → Reply (Option Bytes) × Cache
  unfolding run_request next_request fcu_without_attributes should_build_optimistic_payloads
  next_fcu now blk st (err e) cache = (failed (state_error e), cache)
  next_fcu now blk st (ok lph) cache =
      if not (should_build_optimistic_payloads svc) && pb.enabled
      then run_request (next_request svc block_root now blk lph st) cache
      else elim (fcu_without_attributes pb blk lph) [
        | none ↦ (done none, cache)
        | some e ↦ (failed (engine_error e), cache)
      ]

  -- sendPostBlockFCU
  unfoldable pub send_post_block_fcu : ℕ → BeaconBlock → Kv c → Cache → Reply (Option Bytes) × Cache
  unfolding next_fcu
  send_post_block_fcu now blk st cache =
      next_fcu now blk st (get_latest_execution_payload_header st).0 cache

  -- forceStartupHead, once the slot is read; it asks for the fork of the next slot.
  unfoldable pub force_startup_at : Result ℕ → Kv c → Option BuilderError
  unfolding send_force_head_fcu
  force_startup_at (err e) st = some (state_error e)
  force_startup_at (ok slot) st = send_force_head_fcu pb st (add64 slot 1)

  -- forceStartupHead
  unfoldable pub run_force_startup_head : Kv c → Option BuilderError
  unfolding force_startup_at
  run_force_startup_head st = force_startup_at (get_slot st).0 st

  -- What becomes of a task that the verification of a block started, for the cache of the builder.
  unfoldable pub run_task : ℕ → Task c → Cache → Cache
  unfolding rebuild_payload_for_rejected_block optimistic_payload_build
  run_task now (force_startup_head st) cache = cache
  run_task now (rebuild_payload st) cache = (rebuild_payload_for_rejected_block now st cache).1
  run_task now (build_optimistic_payload st blk) cache =
      (optimistic_payload_build now blk st cache).1
