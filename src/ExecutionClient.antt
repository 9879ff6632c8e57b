-- ===== src/ExecutionClient.antt =====
-- mod/execution/pkg/client/engine.go, helpers.go and errors.go: what the engine client makes of the
-- replies of JSON-RPC calls, which are parameters. Metrics, logging and timeouts are left out.
pub mod Statuses
use beacon_kit.Prelude.{
  ℕ, suc, Bool, true, false, Option, none, some, Bytes, ◌==◌, leb, not, ◌&&◌, ℤ, pos, negsuc,
  if◌then◌else◌,
}
use beacon_kit.Types.{NewPayloadRequest}
use beacon_kit.Chain.{version_deneb}
use beacon_kit.Engine.{ClientError, EngineClient, ForkchoiceUpdateRequest}

-- The statuses of engine-primitives/pkg/engine-primitives/engine.go, and any other string.
pub data PayloadStatus : Type 0 where
  valid invalid syncing accepted unknown : PayloadStatus

pub record PayloadStatusReply : Type 0 where
  pub status : PayloadStatus
  pub latest_valid_hash : Option Bytes

pub record ForkchoiceReply : Type 0 where
  pub payload_status : PayloadStatusReply
  pub payload_id : Option Bytes

-- An error of a call: whether it is a timeout, and its code, if it is a jsonrpc.Error.
pub record RpcError : Type 0 where
  pub is_timeout : Bool
  pub error_code : Option ℤ

-- A reply, where `none` is nil, or an error.
pub data Rpc (A : Type 0) : Type 0 where
  replied : Option A → Rpc A
  rpc_failed : RpcError → Rpc A

-- An error that wraps none of the payload statuses, by its number and whether it is one of those of
-- IsPreDefinedError.
unfoldable pub named_error : Bool → ℕ → ClientError
named_error predefined n = record {
  is_accepted = false;
  is_syncing = false;
  is_invalid = false;
  is_invalid_block_hash = false;
  is_predefined = predefined;
  code = n;
}

-- Whether the error code is -n.
unfoldable pub is_code : ℤ → ℕ → Bool
is_code (pos m) n = false
is_code (negsuc m) n = suc m == n

-- The switch of handleRPCError on the error code.
unfoldable pub coded_error : ℤ → ClientError
unfolding is_code named_error
coded_error code =
    if is_code code 32700
    then named_error true 32700
    else if is_code code 32600
    then named_error true 32600
    else if is_code code 32601
    then named_error true 32601
    else if is_code code 32602
    then named_error true 32602
    else if is_code code 32603
    then named_error true 32603
    else if is_code code 38001
    then named_error false 38001
    else if is_code code 38002
    then named_error false 38002
    else if is_code code 38003
    then named_error false 38003
    else if is_code code 38004
    then named_error false 38004
    else if is_code code 32000
    then named_error true 32000
    else named_error false 0

-- handleRPCError, on an error that is not nil: 1 is http.ErrTimeout, 2 the wrapped server error. When
-- the error is no jsonrpc.Error, IsUnauthorizedError is asked about the nil value of the failed
-- conversion, and says no.
unfoldable pub handle_rpc_error : RpcError → ClientError
unfolding coded_error named_error
handle_rpc_error e =
    if e.is_timeout
    then named_error false 1
    else elim (e.error_code) [ none ↦ named_error false 2 | some code ↦ coded_error code ]

-- processPayloadStatusResult: the latest valid hash, and the error; 3 is ErrUnknownPayloadStatus.
unfoldable pub process_payload_status_result :
    PayloadStatusReply → Option Bytes × Option ClientError
unfolding named_error
process_payload_status_result result = elim (result.status) [
  | accepted ↦ (none, some (record (named_error false 4) { is_accepted = true }))
  | syncing ↦ (none, some (record (named_error false 5) { is_syncing = true }))
  | invalid ↦ (result.latest_valid_hash, some (record (named_error false 6) { is_invalid = true }))
  | valid ↦ (result.latest_valid_hash, none)
  | unknown ↦ (none, some (named_error false 3))
]

-- NewPayload; 7 is ErrNilPayloadStatus.
unfoldable pub client_new_payload : Rpc PayloadStatusReply → Option Bytes × Option ClientError
unfolding handle_rpc_error process_payload_status_result
client_new_payload (rpc_failed e) = (none, some (handle_rpc_error e))
client_new_payload (replied none) = (none, some (named_error false 7))
client_new_payload (replied (some result)) = process_payload_status_result result

-- The end of ForkchoiceUpdated.
unfoldable pub with_payload_id :
    Option Bytes
    → Option Bytes × Option ClientError
    → Option Bytes × Option Bytes × Option ClientError
with_payload_id id (hash, some e) = (none, hash, some e)
with_payload_id id (hash, none) = (id, hash, none)

-- ForkchoiceUpdated; 8 is ErrNilForkchoiceResponse.
unfoldable pub client_forkchoice_updated :
    Rpc ForkchoiceReply → Option Bytes × Option Bytes × Option ClientError
unfolding handle_rpc_error process_payload_status_result with_payload_id
client_forkchoice_updated (rpc_failed e) = (none, none, some (handle_rpc_error e))
client_forkchoice_updated (replied none) = (none, none, some (named_error false 8))
client_forkchoice_updated (replied (some result)) =
    with_payload_id result.payload_id (process_payload_status_result result.payload_status)

-- GetPayload, on envelopes of the type `E`, with whether one has a blobs bundle; 9 is
-- ErrNilExecutionPayloadEnvelope, 10 ErrNilBlobsBundle.
unfoldable pub client_get_payload :
    {E : Type 0} → (E → Bool) → ℕ → Rpc E → Option E × Option ClientError
unfolding handle_rpc_error
client_get_payload has_bundle fork_version (rpc_failed e) = (none, some (handle_rpc_error e))
client_get_payload has_bundle fork_version (replied none) = (none, some (named_error false 9))
client_get_payload has_bundle fork_version (replied (some envelope)) =
    if not (has_bundle envelope) && leb version_deneb fork_version
    then (some envelope, some (named_error false 10))
    else (some envelope, none)

-- The engine client over the two calls, and over the check of hashes that is done with go-ethereum.
unfoldable pub engine_client :
    (NewPayloadRequest → Option ℕ)
    → (NewPayloadRequest → Rpc PayloadStatusReply)
    → (ForkchoiceUpdateRequest → Rpc ForkchoiceReply)
    → EngineClient
unfolding client_new_payload client_forkchoice_updated
engine_client has_valid_hashes call_new_payload call_forkchoice_updated = record {
  has_valid_hashes = has_valid_hashes;
  new_payload = λ req. (client_new_payload (call_new_payload req)).1;
  forkchoice_updated = λ req. client_forkchoice_updated (call_forkchoice_updated req);
}
