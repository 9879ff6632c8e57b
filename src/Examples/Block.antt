-- ===== src/Examples/Block.antt =====
-- The theorems on the parts of a block, applied on the small chain.
use beacon_kit.Processor.Header.{process_block_header}
use beacon_kit.Chain.{slot_to_epoch, active_fork_version_for_slot}
use beacon_kit.Processor.Payload.{process_execution_payload, validate_execution_payload}
use beacon_kit.Collections.Assoc.{assoc}
use beacon_kit.Example.{
  example_processor, example_block, example_context, example_kv, example_header, example_validator,
}
use beacon_kit.Processor.Randao.{process_randao_reveal, verify_randao_reveal, build_randao_mix}
use beacon_kit.Prelude.{false, ◌≡◌, some, inl, bytes_eq, ◌∷◌, [], refl, arith}
use beacon_kit.Exec.{ok, err, block_slot_too_low, panic, Error, collect, for_each}
use beacon_kit.Processor.Header.Checks.{process_block_header_iff}
use beacon_kit.Processor.Payload.Checks.{validated_payload, process_payload_rejects}
use beacon_kit.Types.{zero_root, equals}
use beacon_kit.Processor.Randao.Mixes.{randao_reveal_mixes}
use beacon_kit.Processor.{StateProcessor}
use beacon_kit.Processor.Block.{process_block}
use beacon_kit.Processor.Withdrawals.{process_withdrawals, apply_withdrawals}
use beacon_kit.StateDb.{decrease_balance, hash_tree_root, read_state, new_state}
use beacon_kit.StateDb.Sweep.{expected_withdrawals, sweep, next_withdrawal}
use beacon_kit.Processor.Deposits.{process_operations, process_deposits}
use beacon_kit.BeaconDb.{get_block_root_at_index, state_root_at_index}
use beacon_kit.Processor.Block.Sound.{process_block_sound, one_block_per_slot}

process_block_header_iff_example :
    (process_block_header {c = assoc} example_processor example_block example_kv).0 ≡ ok tt
process_block_header_iff_example =
    (process_block_header_iff example_processor example_kv example_block 3 example_header
        (2 ∷ 0 ∷ zero_root) (7 ∷ 4 ∷ []) (example_validator 11) refl refl refl refl refl).1
      (refl, omega arith, refl, omega arith, refl)

validated_payload_example :
    (validate_execution_payload {c = assoc} example_processor example_block false example_kv).0
    ≡ ok tt
unfolding slot_to_epoch
validated_payload_example =
    (validated_payload example_processor example_kv example_block false 3 4 _ (6 ∷ []) refl refl
        refl refl).1
      (refl, refl, refl, omega arith, omega arith)

-- A node whose execution client refuses every payload.
abbrev refusing : StateProcessor
refusing = record example_processor { verify_and_notify_new_payload = λ request. err panic }

process_payload_rejects_example :
    (e : Error) × (process_execution_payload {c = assoc} refusing example_context example_block
        example_kv
      ≡ (err e, example_kv))
unfolding validate_execution_payload slot_to_epoch bytes_eq
process_payload_rejects_example =
    process_payload_rejects refusing example_kv example_context example_block panic
      (inl (refl, refl))

randao_reveal_mixes_example :
    assoc.get
      (process_randao_reveal {c = assoc} example_processor example_block false
        example_kv).1.randao_mix
      1
    ≡ some (4 ∷ [])
unfolding slot_to_epoch process_randao_reveal verify_randao_reveal build_randao_mix
randao_reveal_mixes_example =
    (randao_reveal_mixes example_processor example_kv 3 refl (6 ∷ []) refl example_block false
      zero_root (example_validator 11) refl refl refl 1).1

process_block_sound_example :
    assoc.read
      (process_block {c = assoc} example_processor example_context example_block example_kv).1.slot
    ≡ some 3
unfolding process_block process_block_header process_execution_payload validate_execution_payload
    process_withdrawals apply_withdrawals decrease_balance expected_withdrawals sweep
    process_randao_reveal process_operations process_deposits hash_tree_root read_state collect
    for_each bytes_eq equals slot_to_epoch verify_randao_reveal next_withdrawal build_randao_mix
    get_block_root_at_index state_root_at_index new_state active_fork_version_for_slot
process_block_sound_example =
    (process_block_sound example_processor example_context example_block example_kv
      (process_block {c = assoc} example_processor example_context example_block example_kv).1
      refl).0

-- The block of slot 3 a second time.
one_block_per_slot_example :
    let kv' =
      (process_block {c = assoc} example_processor example_context example_block example_kv).1 in
    process_block {c = assoc} example_processor example_context example_block kv'
    ≡ (err block_slot_too_low, kv')
unfolding process_block process_block_header process_execution_payload validate_execution_payload
    process_withdrawals apply_withdrawals decrease_balance expected_withdrawals sweep
    process_randao_reveal process_operations process_deposits hash_tree_root read_state collect
    for_each bytes_eq equals slot_to_epoch verify_randao_reveal next_withdrawal build_randao_mix
    get_block_root_at_index state_root_at_index new_state active_fork_version_for_slot
one_block_per_slot_example =
    one_block_per_slot example_processor example_context example_context example_block example_block
      example_kv
      (process_block {c = assoc} example_processor example_context example_block example_kv).1 refl
