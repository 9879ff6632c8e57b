-- ===== src/Examples/Slots.antt =====
-- The theorems on slots, applied on the small chain.
use beacon_kit.Processor.Slots.{
  process_slots, slot_loop, advance_slot, fill_state_root, process_slot,
}
use beacon_kit.StateDb.{hash_tree_root, read_state, new_state}
use beacon_kit.Processor.Epoch.{process_epoch, apply_deltas}
use beacon_kit.Chain.{slot_to_epoch, active_fork_version_for_slot}
use beacon_kit.Collections.Assoc.{assoc}
use beacon_kit.Example.{example_processor, example_kv, example_header}
use beacon_kit.Prelude.{arith, add64, ◌≡◌, bytes_eq, some, ◌++◌, ◌∷◌, [], refl}
use beacon_kit.Exec.{collect, ◌>>=◌, pure}
use beacon_kit.BeaconDb.{get_block_root_at_index, state_root_at_index, get_randao_mix_at_index}
use beacon_kit.Processor.Slots.Advance.{process_slots_compose, process_slots_reaches}
use beacon_kit.Processor.Slots.Record.{process_slot_records}

process_slots_compose_example :
    process_slots {c = assoc} example_processor 5 example_kv
    ≡ (process_slots example_processor 4 >>= λ us.
          process_slots example_processor 5 >>= λ vs. pure (us ++ vs))
        example_kv
process_slots_compose_example =
    process_slots_compose example_processor 3 4 5 example_kv (omega arith) (omega arith)
      (omega arith) refl

-- From slot 3 to slot 4, through the end of an epoch.
process_slots_reaches_example :
    assoc.read (process_slots {c = assoc} example_processor 4 example_kv).1.slot ≡ some 4
unfolding process_slots slot_loop advance_slot process_slot process_epoch apply_deltas
    hash_tree_root new_state active_fork_version_for_slot read_state collect get_block_root_at_index
    state_root_at_index get_randao_mix_at_index bytes_eq slot_to_epoch add64
process_slots_reaches_example =
    process_slots_reaches {c = assoc} example_processor 4 3 example_kv _
      (process_slots {c = assoc} example_processor 4 example_kv).1 (omega arith) (omega arith) refl
      refl

process_slot_records_example :
    assoc.get (process_slot {c = assoc} example_processor example_kv).1.state_roots 3
    ≡ some (9 ∷ 3 ∷ 40 ∷ 32 ∷ [])
unfolding hash_tree_root new_state active_fork_version_for_slot read_state fill_state_root collect
    get_block_root_at_index state_root_at_index get_randao_mix_at_index bytes_eq
process_slot_records_example =
    (process_slot_records example_processor example_kv 3 example_header (9 ∷ 3 ∷ 40 ∷ 32 ∷ []) _
      refl (omega arith) refl refl refl 3).1
