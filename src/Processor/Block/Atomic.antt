-- ===== src/Processor/Block/Atomic.antt =====
-- What a successful Transition saves to the store behind the working one.
use beacon_kit.Prelude.{some, ◌≡◌, refl, List}
use beacon_kit.Exec.{ok}
use beacon_kit.Collections.{Collections}
use beacon_kit.Types.{BeaconBlock, Context, ValidatorUpdate}
use beacon_kit.Processor.{StateProcessor}
use beacon_kit.Processor.Block.{BeaconState, copy, finish, process, transition}

module _ {c : Collections} (sp : StateProcessor) (ctx : Context) (st : BeaconState c)
    (blk : BeaconBlock) where
  -- On a copy of a state, a transition whose slot and block processing succeeds reports the updates
  -- of the slots, and both the working store and the store behind it are what the processing made.
  pub transition_ok_saves :
      (us : List ValidatorUpdate)
      → (process sp ctx blk st.working).0 ≡ ok us
      → ((transition sp ctx (copy st) (some blk)).0 ≡ ok us)
        × ((transition sp ctx (copy st) (some blk)).1.working ≡ (process sp ctx blk st.working).1)
        × ((transition sp ctx (copy st) (some blk)).1.parent
            ≡ some (process sp ctx blk st.working).1)
  unfolding transition copy
  transition_ok_saves us h = rw (h, finish) (refl, refl, refl)
