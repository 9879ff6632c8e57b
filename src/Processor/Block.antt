-- ===== src/Processor/Block.antt =====
-- ProcessBlock and Transition of state_processor.go, with Copy and Save of the store.
pub mod Atomic
pub mod Keeps
pub mod Sound
pub mod Skips
use beacon_kit.Prelude.{List, [], Option, none, some, not, bytes_eq, if◌then◌else◌}
use beacon_kit.Exec.{Result, ok, err, Exec, pure, raise, ◌>>=◌, ◌>>◌, state_root_mismatch}
use beacon_kit.Collections.{Collections}
use beacon_kit.Types.{BeaconBlock, Context, ValidatorUpdate}
use beacon_kit.BeaconDb.{Kv}
use beacon_kit.StateDb.{hash_tree_root}
use beacon_kit.Processor.{StateProcessor}
use beacon_kit.Processor.Header.{process_block_header}
use beacon_kit.Processor.Payload.{process_execution_payload}
use beacon_kit.Processor.Withdrawals.{process_withdrawals}
use beacon_kit.Processor.Randao.{process_randao_reveal}
use beacon_kit.Processor.Deposits.{process_operations}
use beacon_kit.Processor.Slots.{process_slots}

-- A beacon state: the working store, and the store behind it that `write` flushes to. A store that
-- is no copy (`write == nil`) has none behind it.
pub record BeaconState (c : Collections) : Type 0 where
  pub working : Kv c
  pub parent : Option (Kv c)

module _ {c : Collections} where
  -- Copy: a cached context over the store, with the function that writes it back.
  unfoldable pub copy : BeaconState c → BeaconState c
  copy st = record { working = st.working; parent = some st.working }

  unfoldable pub save : BeaconState c → BeaconState c
  save st = elim (st.parent) [ none ↦ st | some _ ↦ record st { parent = some st.working } ]

module _ {c : Collections} (sp : StateProcessor) where
  -- the check at the end of ProcessBlock
  unfoldable pub validate_result : Context → BeaconBlock → Exec (Kv c) Unit
  validate_result ctx blk =
      if ctx.skip_validate_result
      then pure tt
      else (hash_tree_root sp.state_root sp.cs >>= λ state_root.
          if not (bytes_eq blk.state_root state_root) then raise state_root_mismatch else pure tt)

  unfoldable pub process_block : Context → BeaconBlock → Exec (Kv c) Unit
  unfolding validate_result
  process_block ctx blk = do
    process_block_header sp blk
    process_execution_payload sp ctx blk
    process_withdrawals sp blk.body
    process_randao_reveal sp blk ctx.skip_validate_randao
    process_operations sp blk
    validate_result ctx blk

  -- Transition up to Save, on the working store.
  unfoldable pub process : Context → BeaconBlock → Exec (Kv c) (List ValidatorUpdate)
  unfolding process_block
  process ctx blk = do updates ← process_slots sp blk.slot; process_block ctx blk; pure updates

  -- What Transition makes of the outcome of its two steps: only a success is saved.
  unfoldable pub finish :
      BeaconState c
      → Result (List ValidatorUpdate) × Kv c
      → Result (List ValidatorUpdate) × BeaconState c
  unfolding save
  finish st (ok updates, kv) = (ok updates, save (record st { working = kv }))
  finish st (err e, kv) = (err e, record st { working = kv })

  -- Transition; `none` is a nil block.
  unfoldable pub transition :
      Context → BeaconState c → Option BeaconBlock → Result (List ValidatorUpdate) × BeaconState c
  unfolding process finish
  transition ctx st none = (ok [], st)
  transition ctx st (some blk) = finish st (process ctx blk st.working)
