-- ===== src/PayloadBuilder.antt =====
-- mod/payload/pkg/builder: the builder of payloads, over the payload id cache and the execution
-- engine. Logging is left out.
pub mod Requests
use mathlib.Core.Option
use beacon_kit.Prelude.{
  ℕ, List, Option, none, some, Bytes, Bool, true, false, if◌then◌else◌, ◌==◌, ◌%◌, ◌&&◌, leb,
  bytes_eq, not,
}
use beacon_kit.Exec.{
  Error, Result, ok, err, Exec, lift, ◌>>=◌, invalid_timestamp, bind_result, empty_prev_randao,
  nil_withdrawals,
}
use beacon_kit.Types.{Withdrawal, zero_root, ExecutionPayloadHeader}
use beacon_kit.Chain.{
  ChainSpec, slot_to_epoch, active_fork_version_for_epoch, active_fork_version_for_slot,
  version_capella,
}
use beacon_kit.Collections.{Collections}
use beacon_kit.BeaconDb.{Kv, get_randao_mix_at_index, get_latest_execution_payload_header}
use beacon_kit.StateDb.Sweep.{expected_withdrawals}
use beacon_kit.Engine.{
  ClientError, EngineError, EngineClient, ForkchoiceState, ForkchoiceUpdateRequest,
  PayloadAttributes, notify_forkchoice_update,
}
use beacon_kit.PayloadCache.{Cache, get, set}

pub data BuilderError : Type 0 where
  payload_builder_disabled nil_payload_id payload_id_not_found nil_payload_envelope : BuilderError
  -- ctx.Err()
  context_done : BuilderError
  -- the run-time panic of a method call on a nil payload
  nil_payload_panic : BuilderError
  -- an error when getting the payload attributes
  attributes_error : Error → BuilderError
  state_error : Error → BuilderError
  engine_error : EngineError → BuilderError
  get_payload_error : ClientError → BuilderError

pub data Reply (A : Type 0) : Type 0 where
  done : A → Reply A
  failed : BuilderError → Reply A

-- PayloadBuilder, less its cache, which changes. `get_payload` is the client's GetPayload, to which
-- the engine passes a request on; its envelopes are of the type `E`, and `none` is a nil one;
-- `has_nil_payload` is GetExecutionPayload().IsNil() on an envelope.
pub record PayloadBuilder (E : Type 0) : Type 0 where
  pub enabled : Bool
  pub suggested_fee_recipient : Bytes
  pub cs : ChainSpec
  pub client : EngineClient
  pub get_payload : Bytes → ℕ → Option E × Option ClientError
  pub has_nil_payload : E → Bool

-- Validate
unfoldable pub validate_attributes : PayloadAttributes → Result Unit
validate_attributes p =
    if p.timestamp == 0
    then err invalid_timestamp
    else if bytes_eq p.prev_randao zero_root
    then err empty_prev_randao
    else elim (p.withdrawals) [
      | none ↦ if leb version_capella p.version then err nil_withdrawals else ok tt
      | some ws ↦ ok tt
    ]

-- NewPayloadAttributes
unfoldable pub new_payload_attributes : PayloadAttributes → Result PayloadAttributes
unfolding validate_attributes
new_payload_attributes p = bind_result (validate_attributes p) (λ u. ok p)

module _ {E : Type 0} (pb : PayloadBuilder E) where
  -- What RequestPayloadAsync makes of the engine's answer.
  unfoldable pub cache_payload_id :
      ℕ
      → Bytes
      → Option Bytes × Option Bytes × Option EngineError
      → Cache
      → Reply (Option Bytes) × Cache
  unfolding set
  cache_payload_id slot root (id, hash, some e) cache = (failed (engine_error e), cache)
  cache_payload_id slot root (none, hash, none) cache = (done none, cache)
  cache_payload_id slot root (some id, hash, none) cache = (done (some id), set cache slot root id)

  -- RetrievePayload, once the envelope has come: it asks for the fee recipient of the payload also
  -- when that is nil.
  unfoldable pub retrieved : Option E × Option ClientError → Reply E
  retrieved (envelope, some e) = failed (get_payload_error e)
  retrieved (none, none) = failed nil_payload_envelope
  retrieved (some envelope, none) =
      if pb.has_nil_payload envelope then failed nil_payload_panic else done envelope

  -- GetPayload, as RequestPayloadSync passes it on; a nil envelope is `none`.
  unfoldable pub delivered : Option E × Option ClientError → Reply (Option E)
  delivered (envelope, some e) = failed (get_payload_error e)
  delivered (envelope, none) = done envelope

  -- RetrievePayload
  unfoldable pub retrieve_payload : ℕ → Bytes → Cache → Reply E
  unfolding get retrieved
  retrieve_payload slot root cache =
      if not pb.enabled then failed payload_builder_disabled else elim (get cache slot root) [
        | none ↦ failed payload_id_not_found
        | some id ↦ retrieved (pb.get_payload id (active_fork_version_for_slot pb.cs slot))
      ]

  -- The forkchoice update of RequestPayloadAsync.
  unfoldable pub build_request : ℕ → Bytes → Bytes → PayloadAttributes → ForkchoiceUpdateRequest
  build_request slot head final attributes = record {
    state = record {
      head_block_hash = head;
      safe_block_hash = final;
      finalized_block_hash = final;
    };
    payload_attributes = some (some attributes);
    fork_version = active_fork_version_for_slot pb.cs slot;
  }

  -- RequestPayloadAsync, after the lookup in the cache found nothing.
  unfoldable pub request_new_payload :
      ℕ → Bytes → Bytes → Bytes → Result PayloadAttributes → Cache → Reply (Option Bytes) × Cache
  unfolding cache_payload_id build_request
  request_new_payload slot root head final (err e) cache = (failed (attributes_error e), cache)
  request_new_payload slot root head final (ok attributes) cache =
      cache_payload_id slot root
        (notify_forkchoice_update pb.client (build_request slot head final attributes)) cache

  -- RequestPayloadSync, after RequestPayloadAsync; `cancelled` says that the context was done before
  -- the timeout.
  unfoldable pub await_payload : Bool → ℕ → Reply (Option Bytes) × Cache → Reply (Option E) × Cache
  unfolding delivered
  await_payload cancelled slot (failed e, cache) = (failed e, cache)
  await_payload cancelled slot (done none, cache) = (failed nil_payload_id, cache)
  await_payload cancelled slot (done (some id), cache) =
      if cancelled
      then (failed context_done, cache)
      else (delivered (pb.get_payload id (active_fork_version_for_slot pb.cs slot)), cache)

  -- SendForceHeadFCU, once the latest header is read.
  unfoldable pub force_head : ℕ → Result ExecutionPayloadHeader → Option BuilderError
  force_head slot (err e) = some (state_error e)
  force_head slot (ok lph) =
      Option.map engine_error
        (notify_forkchoice_update pb.client (record {
          state = record {
            head_block_hash = lph.block_hash;
            safe_block_hash = lph.parent_hash;
            finalized_block_hash = lph.parent_hash;
          };
          payload_attributes = none;
          fork_version = active_fork_version_for_slot pb.cs slot;
        })).2

module _ {c : Collections} {E : Type 0} (pb : PayloadBuilder E) where
  -- getPayloadAttribute, on the state store.
  unfoldable pub get_payload_attribute : ℕ → ℕ → Bytes → Exec (Kv c) PayloadAttributes
  unfolding new_payload_attributes
  get_payload_attribute slot timestamp prev_head_root = do
    withdrawals ← expected_withdrawals pb.cs
    let epoch = slot_to_epoch pb.cs slot
    prev_randao ← get_randao_mix_at_index (epoch % pb.cs.epochs_per_historical_vector)
    lift (
        new_payload_attributes (record {
          version = active_fork_version_for_epoch pb.cs epoch;
          timestamp = timestamp;
          prev_randao = prev_randao;
          suggested_fee_recipient = pb.suggested_fee_recipient;
          withdrawals = some withdrawals;
          parent_beacon_block_root = prev_head_root;
        }))

  -- RequestPayloadAsync
  unfoldable pub request_payload_async :
      Kv c → ℕ → ℕ → Bytes → Bytes → Bytes → Cache → Reply (Option Bytes) × Cache
  unfolding get request_new_payload get_payload_attribute
  request_payload_async st slot timestamp root head final cache =
      if not pb.enabled
      then (failed payload_builder_disabled, cache)
      else elim (get cache slot root) [
        | some id ↦ (done (some id), cache)
        | none ↦
            request_new_payload pb slot root head final
              (get_payload_attribute slot timestamp root st).0 cache
      ]

  -- RequestPayloadSync
  unfoldable pub request_payload_sync :
      Bool → Kv c → ℕ → ℕ → Bytes → Bytes → Bytes → Cache → Reply (Option E) × Cache
  unfolding await_payload request_payload_async
  request_payload_sync cancelled st slot timestamp root head final cache =
      if not pb.enabled
      then (failed payload_builder_disabled, cache)
      else await_payload pb cancelled slot
          (request_payload_async st slot timestamp root head final cache)

  -- SendForceHeadFCU
  unfoldable pub send_force_head_fcu : Kv c → ℕ → Option BuilderError
  unfolding force_head
  send_force_head_fcu st slot = force_head pb slot (get_latest_execution_payload_header st).0
