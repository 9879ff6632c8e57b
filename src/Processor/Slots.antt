-- ===== src/Processor/Slots.antt =====
-- ProcessSlots and processSlot of state_processor.go.
pub mod Advance
pub mod Record
use beacon_kit.Prelude.{
  ℕ, zero, suc, ◌-◌, ◌==◌, List, [], ◌++◌, Bytes, bytes_eq, if◌then◌else◌, add64,
}
use beacon_kit.Exec.{Exec, pure, lift, modulo, ◌>>=◌, ◌>>◌}
use beacon_kit.Collections.{Collections}
use beacon_kit.Types.{BeaconBlockHeader, ValidatorUpdate, zero_root}
use beacon_kit.BeaconDb.{
  Kv, get_slot, set_slot, update_state_root_at_index, get_latest_block_header,
  set_latest_block_header, update_block_root_at_index,
}
use beacon_kit.StateDb.{hash_tree_root}
use beacon_kit.Processor.{StateProcessor}
use beacon_kit.Processor.Epoch.{process_epoch}

-- The header with the state root filled in, if it had none.
unfoldable pub fill_state_root : Bytes → BeaconBlockHeader → BeaconBlockHeader
fill_state_root root header =
    if bytes_eq header.state_root zero_root then record header { state_root = root } else header

module _ {c : Collections} (sp : StateProcessor) where
  unfoldable pub process_slot : Exec (Kv c) Unit
  unfolding get_slot update_state_root_at_index get_latest_block_header set_latest_block_header
      update_block_root_at_index fill_state_root
  process_slot = do
    slot ← get_slot
    prev_state_root ← hash_tree_root sp.state_root sp.cs
    state_place ← lift (modulo slot sp.cs.slots_per_historical_root)
    update_state_root_at_index state_place prev_state_root
    latest ← get_latest_block_header
    (if bytes_eq latest.state_root zero_root
        then set_latest_block_header (fill_state_root prev_state_root latest)
        else pure tt)
    prev_block_root ← lift (sp.header_root (fill_state_root prev_state_root latest))
    block_place ← lift (modulo slot sp.cs.slots_per_historical_root)
    update_block_root_at_index block_place prev_block_root

  -- One round of the loop of ProcessSlots at `slot`: the updates of the epoch that ends, if any.
  unfoldable pub advance_slot : ℕ → Exec (Kv c) (List ValidatorUpdate)
  unfolding set_slot add64
  advance_slot slot = do
    process_slot
    rest ← lift (modulo (add64 slot 1) sp.cs.slots_per_epoch)
    updates ← (if rest == 0 then process_epoch sp else pure [])
    set_slot (add64 slot 1)
    pure updates

  -- The loop, over the rounds left.
  unfoldable pub slot_loop : ℕ → ℕ → Exec (Kv c) (List ValidatorUpdate)
  slot_loop zero slot = pure []
  slot_loop (suc rounds) slot = advance_slot slot >>= λ updates.
      slot_loop rounds (suc slot) >>= λ rest. pure (updates ++ rest)

  -- `for ; stateSlot < slot; stateSlot++`: slot - stateSlot rounds, none if that is negative.
  unfoldable pub process_slots : ℕ → Exec (Kv c) (List ValidatorUpdate)
  unfolding get_slot slot_loop
  process_slots slot = do state_slot ← get_slot; slot_loop (slot - state_slot) state_slot
