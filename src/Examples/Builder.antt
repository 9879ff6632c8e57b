-- ===== src/Examples/Builder.antt =====
-- The theorem on the payload builder, applied to a first request for a payload.
use beacon_kit.Prelude.{[], ◌∷◌, ◌≡◌, some, none, refl, true, false, Bytes, bytes_eq, add64}
use beacon_kit.Example.{example_spec, example_kv}
use beacon_kit.Collections.Assoc.{assoc}
use beacon_kit.Engine.{EngineClient, notify_forkchoice_update, forkchoice_verdict}
use beacon_kit.BeaconDb.{get_randao_mix_at_index}
use beacon_kit.Chain.{slot_to_epoch, active_fork_version_for_slot}
use beacon_kit.StateDb.Sweep.{expected_withdrawals, sweep, next_withdrawal}
use beacon_kit.PayloadCache.{get, set}
use beacon_kit.PayloadBuilder.{
  PayloadBuilder, request_payload_async, retrieve_payload, retrieved, done, validate_attributes,
  get_payload_attribute, request_new_payload, cache_payload_id,
}
use beacon_kit.Examples.Service.{service}
use beacon_kit.Example.{example_block}
use beacon_kit.Types.{BeaconBlock}
use beacon_kit.Exec.{Result, ok}
use beacon_kit.Blockchain.Building.{optimistic_payload_build}
use beacon_kit.Blockchain.Building.Retrieved.{optimistic_build_retrieved}
use beacon_kit.Processor.Slots.{process_slots, slot_loop}
use beacon_kit.Processor.Epoch.{process_epoch}
use beacon_kit.Processor.Slots.{advance_slot, process_slot}
use beacon_kit.StateDb.{hash_tree_root, read_state, new_state}
use beacon_kit.Exec.{collect}
use beacon_kit.BeaconDb.{get_block_root_at_index, state_root_at_index}
use beacon_kit.Processor.Epoch.{apply_deltas}
use beacon_kit.PayloadBuilder.Requests.{request_then_retrieve}

-- A client that builds the payload 5, whose envelope is 55.
abbrev building_client : EngineClient
building_client = record {
  has_valid_hashes = λ req. none;
  new_payload = λ req. none;
  forkchoice_updated = λ req. (some (5 ∷ []), none, none);
}

abbrev builder : PayloadBuilder Bytes
builder = record {
  enabled = true;
  suggested_fee_recipient = 3 ∷ [];
  cs = example_spec;
  client = building_client;
  get_payload = λ id version. (some (5 ∷ id), none);
  has_nil_payload = λ envelope. false;
}

request_then_retrieve_example :
    (retrieve_payload builder 4 (7 ∷ []) (set [] 4 (7 ∷ []) (5 ∷ [])) ≡ done (5 ∷ 5 ∷ []))
    × (request_payload_async builder (example_kv) 4 9 (7 ∷ []) [] [] (set [] 4 (7 ∷ []) (5 ∷ []))
        ≡ (done (some (5 ∷ [])), set [] 4 (7 ∷ []) (5 ∷ [])))
unfolding retrieved request_payload_async get_payload_attribute request_new_payload cache_payload_id
    validate_attributes forkchoice_verdict expected_withdrawals sweep next_withdrawal slot_to_epoch
    active_fork_version_for_slot get get_randao_mix_at_index bytes_eq notify_forkchoice_update
request_then_retrieve_example =
    request_then_retrieve {c = assoc} builder example_kv example_kv 4 8 9 (7 ∷ []) (1 ∷ []) (2 ∷ [])
      [] [] (5 ∷ []) [] (set [] 4 (7 ∷ []) (5 ∷ [])) refl

abbrev block_root : BeaconBlock → Result Bytes
block_root blk = ok (blk.slot ∷ 77 ∷ [])

-- The payload for slot 4, on top of the block of slot 3.
optimistic_build_retrieved_example :
    retrieve_payload builder 4 (3 ∷ 77 ∷ []) (set [] 4 (3 ∷ 77 ∷ []) (5 ∷ [])) ≡ done (5 ∷ 5 ∷ [])
unfolding optimistic_payload_build process_slots slot_loop process_epoch request_payload_async
    get_payload_attribute validate_attributes forkchoice_verdict expected_withdrawals sweep
    next_withdrawal slot_to_epoch active_fork_version_for_slot get get_randao_mix_at_index bytes_eq
    notify_forkchoice_update add64 retrieved advance_slot process_slot hash_tree_root read_state
    collect get_block_root_at_index state_root_at_index new_state apply_deltas
optimistic_build_retrieved_example =
    optimistic_build_retrieved {c = assoc} service builder block_root 50 example_block (3 ∷ 77 ∷ [])
      (5 ∷ []) example_kv [] (set [] 4 (3 ∷ 77 ∷ []) (5 ∷ [])) refl refl
