-- ===== src/Examples/Engine.antt =====
-- The theorems on the execution engine and on the payload id cache, applied to concrete answers.
use beacon_kit.Prelude.{◌∷◌, [], ◌≡◌, some, none, refl, true, false, inl, inr}
use beacon_kit.Engine.{verify_and_notify_new_payload, is_optimistic_status}
use beacon_kit.Types.{NewPayloadRequest}
use beacon_kit.Engine.{ClientError, EngineClient}
use beacon_kit.Engine.Verdicts.{verify_and_notify_new_payload_iff}
use beacon_kit.ExecutionClient.{
  PayloadStatusReply, Rpc, replied, rpc_failed, accepted, engine_client,
}
use beacon_kit.ExecutionClient.Statuses.{says_invalid, verify_and_notify_new_payload_lem}

abbrev syncing : ClientError
syncing = record {
  is_accepted = false;
  is_syncing = true;
  is_invalid = false;
  is_invalid_block_hash = false;
  is_predefined = false;
  code = 1;
}

-- A client that is still syncing.
abbrev syncing_client : EngineClient
syncing_client = record {
  has_valid_hashes = λ req. none;
  new_payload = λ req. some syncing;
  forkchoice_updated = λ req. (some (5 ∷ []), none, some syncing);
}

abbrev optimistic_request : NewPayloadRequest
optimistic_request = record {
  execution_payload = record {
    parent_hash = [];
    prev_randao = [];
    timestamp = 1;
    block_hash = [];
    withdrawals = [];
  };
  versioned_hashes = [];
  parent_beacon_block_root = [];
  optimistic = true;
}

verify_and_notify_new_payload_iff_example :
    verify_and_notify_new_payload syncing_client optimistic_request ≡ none
unfolding is_optimistic_status
verify_and_notify_new_payload_iff_example =
    (verify_and_notify_new_payload_iff syncing_client optimistic_request).1
      (refl, inr (syncing, refl, refl, inl refl))

-- An execution client that has accepted a payload without checking it.
abbrev accepting_reply : Rpc PayloadStatusReply
accepting_reply = replied (some record { status = accepted; latest_valid_hash = none })

verify_and_notify_new_payload_lem_example :
    verify_and_notify_new_payload
      (engine_client
        (λ req. none)
        (λ req. accepting_reply)
        (λ req. rpc_failed record { is_timeout = true; error_code = none }))
      optimistic_request
    ≡ none
unfolding says_invalid
verify_and_notify_new_payload_lem_example =
    (verify_and_notify_new_payload_lem (λ req. none) (λ req. accepting_reply)
        (λ req. rpc_failed record { is_timeout = true; error_code = none }) optimistic_request).1
      (refl, inr (refl, refl))
