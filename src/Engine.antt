-- ===== src/Engine.antt =====
-- mod/execution/pkg/engine/engine.go: the execution engine, over the client that speaks JSON-RPC.
-- Logging and metrics are left out.
pub mod Verdicts
use beacon_kit.Prelude.{ℕ, Bytes, Bool, Option, ◌||◌, some, if◌then◌else◌, none, false, true, List}
use beacon_kit.Types.{NewPayloadRequest, Withdrawal}

-- An error of the client, by what errors.IsAny and jsonrpc.IsPreDefinedError find in it; one error
-- may wrap several.
pub record ClientError : Type 0 where
  pub is_accepted : Bool
  pub is_syncing : Bool
  pub is_invalid : Bool
  pub is_invalid_block_hash : Bool
  pub is_predefined : Bool
  pub code : ℕ

pub data EngineError : Type 0 where
  invalid_hashes : ℕ → EngineError
  bad_block_produced nil_payload_on_valid_response : EngineError
  -- errors.Join(err, ErrPreDefinedJSONRPC)
  predefined_json_rpc client_error : ClientError → EngineError

pub record ForkchoiceState : Type 0 where
  pub head_block_hash : Bytes
  pub safe_block_hash : Bytes
  pub finalized_block_hash : Bytes

-- The payload attributes; `none` for the withdrawals is a nil slice.
pub record PayloadAttributes : Type 0 where
  pub version : ℕ
  pub timestamp : ℕ
  pub prev_randao : Bytes
  pub suggested_fee_recipient : Bytes
  pub withdrawals : Option (List Withdrawal)
  pub parent_beacon_block_root : Bytes

-- The attributes are an interface value: `none` is nil, and `some none` a nil pointer in it, for
-- which IsNil is true.
pub record ForkchoiceUpdateRequest : Type 0 where
  pub state : ForkchoiceState
  pub payload_attributes : Option (Option PayloadAttributes)
  pub fork_version : ℕ

-- The methods of the execution client that the engine calls, and the check of a request that is
-- done with go-ethereum. An error that is nil is `none`.
pub record EngineClient : Type 0 where
  pub has_valid_hashes : NewPayloadRequest → Option ℕ
  pub new_payload : NewPayloadRequest → Option ClientError
  pub forkchoice_updated :
      ForkchoiceUpdateRequest → Option Bytes × Option Bytes × Option ClientError

-- The first case of both switches.
unfoldable pub is_optimistic_status : ClientError → Bool
is_optimistic_status e = e.is_accepted || e.is_syncing

-- The second case.
unfoldable pub is_invalid_status : ClientError → Bool
is_invalid_status e = e.is_invalid || e.is_invalid_block_hash

unfoldable pub has_payload_attributes : ForkchoiceUpdateRequest → Bool
has_payload_attributes req = elim (req.payload_attributes) [
  | none ↦ false
  | some none ↦ false
  | some (some attributes) ↦ true
]

-- The end of VerifyAndNotifyNewPayload.
unfoldable pub unless_optimistic : Bool → Option EngineError → Option EngineError
unless_optimistic optimistic e = if optimistic then none else e

-- What is made of the client's answer to a new payload.
unfoldable pub categorize : Bool → Option ClientError → Option EngineError
unfolding unless_optimistic is_optimistic_status is_invalid_status
categorize optimistic none = unless_optimistic optimistic none
categorize optimistic (some e) =
    if is_optimistic_status e
    then unless_optimistic optimistic (some (client_error e))
    else if is_invalid_status e
    then some bad_block_produced
    else if e.is_predefined
    then unless_optimistic optimistic (some (predefined_json_rpc e))
    else unless_optimistic optimistic (some (client_error e))

unfoldable pub verify_and_notify_new_payload : EngineClient → NewPayloadRequest → Option EngineError
unfolding categorize
verify_and_notify_new_payload ec req = elim (ec.has_valid_hashes req) [
  | some e ↦ some (invalid_hashes e)
  | none ↦ categorize req.optimistic (ec.new_payload req)
]

-- What is made of the client's answer to a forkchoice update.
unfoldable pub forkchoice_verdict :
    Bool
    → Option Bytes × Option Bytes × Option ClientError
    → Option Bytes × Option Bytes × Option EngineError
unfolding is_optimistic_status is_invalid_status
forkchoice_verdict attributes (id, hash, some e) =
    if is_optimistic_status e
    then (id, none, none)
    else if is_invalid_status e
    then (id, hash, some bad_block_produced)
    else if e.is_predefined
    then (none, none, some (predefined_json_rpc e))
    else (none, none, some (client_error e))
forkchoice_verdict attributes (none, hash, none) =
    if attributes then (none, hash, some nil_payload_on_valid_response) else (none, hash, none)
forkchoice_verdict attributes (some id, hash, none) = (some id, hash, none)

unfoldable pub notify_forkchoice_update :
    EngineClient → ForkchoiceUpdateRequest → Option Bytes × Option Bytes × Option EngineError
unfolding forkchoice_verdict has_payload_attributes
notify_forkchoice_update ec req =
    forkchoice_verdict (has_payload_attributes req) (ec.forkchoice_updated req)
