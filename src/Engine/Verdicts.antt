-- ===== src/Engine/Verdicts.antt =====
-- When the engine accepts a payload or a forkchoice update.
use beacon_kit.Prelude.{
  ◌≡◌, arith, none, some, ◌↔◌, ◌⊎◌, true, false, Option, inl, inr, refl, Bytes, ◌≢◌, Bool-cases,
}
use beacon_kit.Engine.{
  EngineClient, verify_and_notify_new_payload, notify_forkchoice_update, ClientError,
  is_optimistic_status, is_invalid_status, ForkchoiceUpdateRequest, has_payload_attributes,
}
use beacon_kit.Types.{NewPayloadRequest}

-- A new payload is accepted exactly if its hashes are valid and either the client has no error, or
-- the request is optimistic and the error is that the payload is accepted or being synced, or does
-- not say that it is invalid. An accepted or syncing payload is an error if the request is not
-- optimistic.
pub verify_and_notify_new_payload_iff :
    (ec : EngineClient) (req : NewPayloadRequest)
    → (verify_and_notify_new_payload ec req ≡ none) ↔ (
        (ec.has_valid_hashes req ≡ none)
        × ((ec.new_payload req ≡ none)
            ⊎ ((e : ClientError) × (ec.new_payload req ≡ some e)
                × (req.optimistic ≡ true)
                × ((is_optimistic_status e ≡ true) ⊎ (is_invalid_status e ≡ false)))))
unfolding verify_and_notify_new_payload
verify_and_notify_new_payload_iff ec req =
    (forward (ec.new_payload req) refl, λ h. backward h.0 h.1)
  where
    forward :
        (r : Option ClientError)
        → ec.new_payload req ≡ r
        → verify_and_notify_new_payload ec req ≡ none
        → (ec.has_valid_hashes req ≡ none)
          × ((ec.new_payload req ≡ none)
              ⊎ ((e : ClientError) × (ec.new_payload req ≡ some e)
                  × (req.optimistic ≡ true)
                  × ((is_optimistic_status e ≡ true) ⊎ (is_invalid_status e ≡ false))))
    forward none q h = (ground arith, inl q)
    forward (some e) q h = (ground arith, inr (e, q, ground arith, ground arith))

    backward :
        ec.has_valid_hashes req ≡ none
        → (ec.new_payload req ≡ none)
          ⊎ ((e : ClientError) × (ec.new_payload req ≡ some e)
              × (req.optimistic ≡ true)
              × ((is_optimistic_status e ≡ true) ⊎ (is_invalid_status e ≡ false)))
        → verify_and_notify_new_payload ec req ≡ none
    backward v (inl n) = ground arith
    backward v (inr (e, q, o, inl k)) = ground arith
    backward v (inr (e, q, o, inr k)) = ground arith

-- A forkchoice update has no error exactly if either the client has none, and gave a payload id if
-- payload attributes were sent, or the client's error is that the payload is accepted or being
-- synced. The payload id is then the client's.
notify_forkchoice_update_iff :
    (ec : EngineClient) (req : ForkchoiceUpdateRequest) (id hash : Option Bytes)
    (answer : Option ClientError)
    → ec.forkchoice_updated req ≡ (id, hash, answer)
    → (((notify_forkchoice_update ec req).2 ≡ none) ↔ (
        ((answer ≡ none)
          × ((has_payload_attributes req ≡ false) ⊎ ((pid : Bytes) × (id ≡ some pid))))
        ⊎ ((e : ClientError) × (answer ≡ some e) × (is_optimistic_status e ≡ true))))
      × (((notify_forkchoice_update ec req).2 ≢ none) ⊎ ((notify_forkchoice_update ec req).0 ≡ id))
unfolding notify_forkchoice_update
notify_forkchoice_update_iff ec req (some pid) hash none q =
    ((λ h. inl (refl, inr (pid, refl)), λ h. ground arith), inr (ground arith))
notify_forkchoice_update_iff ec req none hash none q =
    elim (Bool-cases (has_payload_attributes req)) [
      | inl sent ↦
          ((λ h. absurd (ground arith), λ h. absurd (ground arith)), inl (λ h. ground arith))
      | inr unsent ↦ ((λ h. inl (refl, inl unsent), λ h. ground arith), inr (ground arith))
    ]
notify_forkchoice_update_iff ec req id hash (some e) q =
    elim (Bool-cases (is_optimistic_status e)) [
      | inl fine ↦ ((λ h. inr (e, refl, fine), λ h. ground arith), inr (ground arith))
      | inr bad ↦
          ((λ h. absurd (ground arith), λ h. absurd (ground arith)), inl (λ h. ground arith))
    ]
