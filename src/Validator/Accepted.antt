-- ===== src/Validator/Accepted.antt =====
-- The block that is proposed, and the check of the state root that its receivers make.
use beacon_kit.Prelude.{
  u64_mod, ℕ, ◌≡◌, refl, arith, Bytes, ap, sym, ◌∙◌, some, List, ◌≤◌, ◌<◌, true,
}
use beacon_kit.Exec.{ok}
use beacon_kit.Exec.Success.{Succeeds, >>=-Succeeds}
use beacon_kit.Collections.{Collections}
use beacon_kit.BeaconDb.{Kv}
use beacon_kit.Types.{BeaconBlock, Context, Deposit, ValidatorUpdate}
use beacon_kit.Validator.{
  ValidatorService, Surroundings, proposal_context, produced, set_state_root,
}
use beacon_kit.Processor.Block.{BeaconState, process_block, process}
use beacon_kit.Validator.Proposal.{compute_state_root, request_block_for_proposal}
use beacon_kit.PayloadCache.{Cache}
use beacon_kit.DataAvailability.{Sidecars}
use beacon_kit.Processor.Slots.{process_slots}
use beacon_kit.Validator.Drafts.{drafted}
use beacon_kit.Validator.Computed.{computed}
use beacon_kit.Processor.Block.Skips.{own_root_accepted}
use beacon_kit.Processor.Slots.Advance.{process_slots_reaches}

module _ {c : Collections} (vs : ValidatorService) where
  draft_accepted :
      (s slot : ℕ) (st st' : BeaconState c) (kv kv' : Kv c) (before us : List ValidatorUpdate)
      (draft : BeaconBlock) (root : Bytes) (ctx : Context)
      → c.read st.working.slot ≡ some s
      → s ≤ slot
      → slot < u64_mod
      → Succeeds (process_slots vs.sp slot) st.working before kv
      → draft.slot ≡ slot
      → compute_state_root vs (record st { working = kv }) draft ≡ (ok root, st')
      → Succeeds
          (process vs.sp
            (record ctx { skip_validate_result = true })
            (record draft { state_root = root }))
          st.working
          us
          kv'
      → Succeeds (process vs.sp ctx (record draft { state_root = root })) st.working us kv'
  unfolding process
  draft_accepted s slot st st' kv kv' before us draft root ctx r l b moved at_slot rooted k =
      let plain = record ctx { skip_validate_result = true } in
      let blk = record draft { state_root = root } in
      let ready = record st { working = kv } in
      let (us1, kv1, h1, r1) =
        >>=-Succeeds (process_slots vs.sp draft.slot) _ st.working us kv' k in
      let (u, kv2, h2, r2) = >>=-Succeeds (process_block vs.sp plain blk) _ kv1 us kv' r1 in
      let reached : c.read kv.slot ≡ some draft.slot =
        ground (arith, process_slots_reaches vs.sp slot s st.working before kv) in
      let (made, root_of) = computed vs ready st' draft root reached rooted in
      let start : (ok us1, kv1) ≡ (ok before, kv) =
        sym h1 ∙ (ap (λ n. process_slots vs.sp n st.working) at_slot ∙ moved) in
      let same : kv1 ≡ kv = ap (λ x. x.1) start in
      let passed : Succeeds (process_block vs.sp plain blk) kv tt kv2 =
        ap (process_block vs.sp plain blk) (sym same) ∙ h2 in
      let checked =
        own_root_accepted vs.sp ctx proposal_context draft root kv st'.working kv2 refl refl refl
          made root_of passed in
      let checked' : Succeeds (process_block vs.sp ctx blk) kv1 tt kv2 =
        ap (process_block vs.sp ctx blk) same ∙ checked in
      rw h1 (rw checked' r2)

  -- When a block was requested for `slot`, from a state at slot `s` ≤ `slot` < 2^64, and is processed
  -- from that state, in any context: if it passes with the check of its state root skipped, it
  -- passes with that check, to the same state.
  pub proposed_root_accepted :
      (env : Surroundings) (deposit_store : c.Map Deposit) (s slot : ℕ) (st st' : BeaconState c)
      (cache cache' : Cache) (blk : BeaconBlock) (scs : Sidecars) (ctx : Context)
      (us : List ValidatorUpdate) (kv' : Kv c)
      → c.read st.working.slot ≡ some s
      → s ≤ slot
      → slot < u64_mod
      → request_block_for_proposal vs env deposit_store slot st cache
        ≡ (produced (blk, scs), st', cache')
      → Succeeds (process vs.sp (record ctx { skip_validate_result = true }) blk) st.working us kv'
      → Succeeds (process vs.sp ctx blk) st.working us kv'
  unfolding process
  proposed_root_accepted env deposit_store s slot st st' cache cache' blk scs ctx us kv' r l b h k =
      let (kv, before, moved, (draft, root, at_slot, rooted, same)) =
        drafted vs env deposit_store slot st st' cache cache' blk scs h in
      let sealed : blk ≡ record draft { state_root = root } = unfold set_state_root in same in
      let k' =
        ap (λ x. process vs.sp (record ctx { skip_validate_result = true }) x st.working)
          (sym sealed)
        ∙ k in
      ap (λ x. process vs.sp ctx x st.working) sealed
      ∙ draft_accepted s slot st st' kv kv' before us draft root ctx r l b moved at_slot rooted k'
