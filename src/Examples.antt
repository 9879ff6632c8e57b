-- ===== src/Examples.antt =====
-- Runs of the model on the small chain of Example, and the theorems applied there.
mod Slots
mod Block
mod Balances
mod Genesis
mod Engine
mod Storage
mod Pruning
mod Trees
mod Builder
mod Service
mod Hex
mod Sidecars
mod Proposals
use beacon_kit.Processor.Block.{process_block}
use beacon_kit.Processor.Header.{process_block_header}
use beacon_kit.Processor.Payload.{process_execution_payload, validate_execution_payload}
use beacon_kit.Processor.Withdrawals.{process_withdrawals, apply_withdrawals}
use beacon_kit.StateDb.{decrease_balance, hash_tree_root, read_state, new_state}
use beacon_kit.StateDb.Sweep.{expected_withdrawals, sweep, next_withdrawal}
use beacon_kit.Processor.Randao.{process_randao_reveal, verify_randao_reveal, build_randao_mix}
use beacon_kit.Processor.Deposits.{process_operations, process_deposits}
use beacon_kit.Exec.{collect, for_each, ok}
use beacon_kit.Prelude.{bytes_eq, ◌≡◌, refl}
use beacon_kit.Types.{equals}
use beacon_kit.Chain.{slot_to_epoch, active_fork_version_for_slot}
use beacon_kit.BeaconDb.{get_block_root_at_index, state_root_at_index}
use beacon_kit.Collections.Assoc.{assoc}
use beacon_kit.Example.{example_processor, example_context, example_block, example_kv}

-- The whole block is accepted.
block_is_accepted :
    (process_block {c = assoc} example_processor example_context example_block example_kv).0 ≡ ok tt
unfolding process_block process_block_header process_execution_payload validate_execution_payload
    process_withdrawals apply_withdrawals decrease_balance expected_withdrawals sweep
    process_randao_reveal process_operations process_deposits hash_tree_root read_state collect
    for_each bytes_eq equals slot_to_epoch verify_randao_reveal next_withdrawal build_randao_mix
    get_block_root_at_index state_root_at_index new_state active_fork_version_for_slot
block_is_accepted = refl
