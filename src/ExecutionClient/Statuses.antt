-- ===== src/ExecutionClient/Statuses.antt =====
-- The engine over its client: what a reply of the execution client does to a payload.
use beacon_kit.Prelude.{
  ℕ, Bool, true, false, Option, none, some, ◌≡◌, ◌↔◌, ◌⊎◌, inl, inr, arith, refl, Option-cases,
}
use beacon_kit.Types.{NewPayloadRequest}
use beacon_kit.Engine.{
  ClientError, ForkchoiceUpdateRequest, verify_and_notify_new_payload, categorize,
  unless_optimistic, is_optimistic_status, is_invalid_status,
}
use beacon_kit.ExecutionClient.{
  PayloadStatusReply, ForkchoiceReply, Rpc, RpcError, replied, rpc_failed, valid, invalid, syncing,
  accepted, unknown, engine_client, client_new_payload, handle_rpc_error, named_error, coded_error,
  process_payload_status_result,
}

-- The reply says that the payload is valid.
unfoldable pub says_valid : Rpc PayloadStatusReply → Bool
says_valid (rpc_failed e) = false
says_valid (replied none) = false
says_valid (replied (some r)) = elim (r.status) [ valid ↦ true | _ ↦ false ]

unfoldable pub says_invalid : Rpc PayloadStatusReply → Bool
says_invalid (rpc_failed e) = false
says_invalid (replied none) = false
says_invalid (replied (some r)) = elim (r.status) [ invalid ↦ true | _ ↦ false ]

-- An error of a call is never an invalid status.
rpc_error_not_invalid : (e : RpcError) → is_invalid_status (handle_rpc_error e) ≡ false
unfolding is_invalid_status handle_rpc_error coded_error named_error
rpc_error_not_invalid e = ground arith

named_error_not_invalid : (n : ℕ) → is_invalid_status (named_error false n) ≡ false
unfolding is_invalid_status named_error
named_error_not_invalid n = refl

-- An error that is not an invalid status is ignored exactly when the engine is optimistic.
ignored_error :
    (optimistic : Bool) (e : ClientError)
    → is_invalid_status e ≡ false
    → (categorize optimistic (some e) ≡ none) ↔ (optimistic ≡ true)
unfolding categorize unless_optimistic
ignored_error o e h = (ground arith, ground arith)

status_verdict :
    (optimistic : Bool) (reply : PayloadStatusReply)
    → (categorize optimistic (process_payload_status_result reply).1 ≡ none) ↔ (
        (says_valid (replied (some reply)) ≡ true)
        ⊎ ((optimistic ≡ true) × (says_invalid (replied (some reply)) ≡ false)))
unfolding categorize process_payload_status_result says_valid unless_optimistic says_invalid
    named_error is_optimistic_status is_invalid_status
status_verdict o reply = elim (reply.status) [
  | valid ↦ (ground arith, ground arith)
  | invalid ↦ (ground arith, ground arith)
  | syncing ↦ (ground arith, ground arith)
  | accepted ↦ (ground arith, ground arith)
  | unknown ↦ (ground arith, ground arith)
]

reply_verdict :
    (optimistic : Bool) (reply : Rpc PayloadStatusReply)
    → (categorize optimistic (client_new_payload reply).1 ≡ none)
      ↔ ((says_valid reply ≡ true) ⊎ ((optimistic ≡ true) × (says_invalid reply ≡ false)))
unfolding client_new_payload says_valid says_invalid
reply_verdict o (rpc_failed e) =
    let h = ignored_error o (handle_rpc_error e) (rpc_error_not_invalid e) in
    (λ q. inr (h.0 q, refl), λ q. h.1 (ground arith))
reply_verdict o (replied none) =
    let h = ignored_error o (named_error false 7) (named_error_not_invalid 7) in
    (λ q. inr (h.0 q, refl), λ q. h.1 (ground arith))
reply_verdict o (replied (some r)) = status_verdict o r

-- Over the client, a payload request is answered without an error exactly when its hashes pass the
-- check and either the execution client replies that the payload is valid, or the request is
-- optimistic and the reply, or the error of the call, is anything but an invalid status.
pub verify_and_notify_new_payload_lem :
    (has_valid_hashes : NewPayloadRequest → Option ℕ)
    (call_new_payload : NewPayloadRequest → Rpc PayloadStatusReply)
    (call_forkchoice_updated : ForkchoiceUpdateRequest → Rpc ForkchoiceReply)
    (req : NewPayloadRequest)
    → (verify_and_notify_new_payload
          (engine_client has_valid_hashes call_new_payload call_forkchoice_updated)
          req
        ≡ none)
      ↔ ((has_valid_hashes req ≡ none)
          × ((says_valid (call_new_payload req) ≡ true)
              ⊎ ((req.optimistic ≡ true) × (says_invalid (call_new_payload req) ≡ false))))
unfolding verify_and_notify_new_payload engine_client
verify_and_notify_new_payload_lem hashes call forkchoice req =
    let h = reply_verdict req.optimistic (call req) in
    elim (Option-cases (hashes req)) [
      | inl n ↦ (λ q. (n, h.0 (ground arith)), λ q. ground arith)
      | inr (e, n) ↦ (λ q. ground arith, λ q. ground arith)
    ]
