-- ===== src/Validator/Computed.antt =====
-- computeStateRoot of mod/beacon/validator/state.go: the transition of a block without its checks.
use beacon_kit.Prelude.{Option, none, ℕ, ◌≡◌, refl, arith, Bytes, some, List, inl, inr, [], ◌-◌}
use beacon_kit.Exec.{Result, ok, err}
use beacon_kit.Exec.Success.{Succeeds, >>=-Succeeds, Result-cases}
use beacon_kit.Collections.{Collections}
use beacon_kit.BeaconDb.{Kv, get_slot}
use beacon_kit.Types.{BeaconBlock, ValidatorUpdate}
use beacon_kit.Validator.{ValidatorService, proposal_context}
use beacon_kit.Processor.Block.{BeaconState, process_block, transition, finish, save, process}
use beacon_kit.Validator.Proposal.{compute_state_root}
use beacon_kit.Processor.Slots.{process_slots, slot_loop}
use beacon_kit.StateDb.{hash_tree_root}

module _ {c : Collections} (vs : ValidatorService) where
  slots_done :
      (kv : Kv c) (slot : ℕ)
      → c.read kv.slot ≡ some slot
      → process_slots vs.sp slot kv ≡ (ok [], kv)
  unfolding process_slots get_slot
  slots_done kv slot r =
      let none_left : slot - slot ≡ 0 = omega arith in rw (r, none_left) (unfold slot_loop in refl)

  -- At the slot of the block, no slot is processed before it.
  unchecked_block :
      (kv kv' : Kv c) (blk : BeaconBlock) (us : List ValidatorUpdate)
      → c.read kv.slot ≡ some blk.slot
      → Succeeds (process vs.sp proposal_context blk) kv us kv'
      → Succeeds (process_block vs.sp proposal_context blk) kv tt kv'
  unfolding process
  unchecked_block kv kv' blk us r h =
      let (vs1, kv1, h1, r1) = >>=-Succeeds (process_slots vs.sp blk.slot) _ kv us kv' h in
      let (u, kv2, h2, r2) =
        >>=-Succeeds (process_block vs.sp proposal_context blk) _ kv1 us kv' r1 in
      let still : kv1 ≡ kv = ground (arith, slots_done kv blk.slot r) in ground arith

  -- Save leaves the working store alone.
  saved_working :
      (kv : Kv c) (parent : Option (Kv c))
      → (save (record { working = kv; parent = parent })).working ≡ kv
  unfolding save
  saved_working kv none = refl
  saved_working kv (some store) = refl

  finish_done :
      (st st' : BeaconState c) (m : Result (List ValidatorUpdate) × Kv c)
      (us : List ValidatorUpdate)
      → finish vs.sp st m ≡ (ok us, st')
      → m ≡ (ok us, st'.working)
  unfolding finish
  finish_done st st' (ok vs1, kv) us h = let kept = saved_working kv st.parent in ground arith
  finish_done st st' (err x, kv) us h = absurd (ground arith)

  -- computeStateRoot, on a state that is at the slot of the block.
  pub computed :
      (st st' : BeaconState c) (blk : BeaconBlock) (root : Bytes)
      → c.read st.working.slot ≡ some blk.slot
      → compute_state_root vs st blk ≡ (ok root, st')
      → Succeeds (process_block vs.sp proposal_context blk) st.working tt st'.working
        × ((hash_tree_root vs.sp.state_root vs.sp.cs st'.working).0 ≡ ok root)
  unfolding compute_state_root
  computed st st' blk root r h =
      elim (Result-cases ((transition vs.sp proposal_context st (some blk)).0)) [
        | inl (us, e) ↦
            let made : transition vs.sp proposal_context st (some blk) ≡ (ok us, st') =
              ground arith in
            let done =
              finish_done st st' (process vs.sp proposal_context blk st.working) us
                (unfold transition in made) in
            (unchecked_block st.working st'.working blk us r done, ground arith)
        | inr (x, e) ↦ absurd (ground arith)
      ]
