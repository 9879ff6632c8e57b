-- ===== src/Blockchain/Proposals.antt =====
-- What the acceptance and the rejection of a proposal mean.
use beacon_kit.Prelude.{
  List, [], ◌∷◌, ◌++◌, not, if◌then◌else◌, Option, none, some, Bool, true, ◌≡◌, arith, refl, ap,
  sym, ◌∙◌, ◌⊎◌, Option-cases, inl, inr,
}
use beacon_kit.Exec.{Error, Result, ok, err}
use beacon_kit.Types.{BeaconBlock, ValidatorUpdate}
use beacon_kit.Collections.{Collections}
use beacon_kit.BeaconDb.{Kv}
use beacon_kit.StateDb.{hash_tree_root}
use beacon_kit.Processor.Block.{BeaconState, transition, copy, process, finish}
use beacon_kit.Processor.Block.{process_block}
use beacon_kit.Processor.Slots.{process_slots}
use beacon_kit.Processor.Block.Sound.{process_block_sound}
use beacon_kit.Exec.Success.{>>=-Succeeds, Result-cases}
use beacon_kit.Processor.Block.Atomic.{transition_ok_saves}
use beacon_kit.DataAvailability.{Sidecars, processor_verify_blobs}
use beacon_kit.Blockchain.{
  Service, Task, plain, verify_context, verify_incoming_block, verified_block, state_root_verdict,
  verify_incoming_blobs, plain_error, join_fatal, joined, is_fatal, is_fatal_error,
  receive_block_and_blobs, process_proposal, flushed, should_build_optimistic_payloads,
  force_startup_head, build_optimistic_payload, rebuild_payload,
}

plain_errors :
    (r : Result Unit) → (plain_error r ≡ none) ⊎ ((e : Error) × (plain_error r ≡ some (plain e)))
unfolding plain_error
plain_errors (ok u) = inl refl
plain_errors (err e) = inr (e, refl)

module _ (svc : Service) where
  blob_errors :
      (blk : BeaconBlock) (sidecars : Option Sidecars)
      → (verify_incoming_blobs svc (some blk) sidecars ≡ none)
        ⊎ ((e : Error) × (verify_incoming_blobs svc (some blk) sidecars ≡ some (plain e)))
  unfolding verify_incoming_blobs
  blob_errors blk none = inl refl
  blob_errors blk (some []) = inl refl
  blob_errors blk (some (sc ∷ scs)) =
      plain_errors (processor_verify_blobs svc.verifier svc.sp.cs blk.slot (sc ∷ scs))

accepted_error :
    (svc : Service) (e : Error)
    → state_root_verdict svc (err e) ≡ none
    → svc.is_accepted_status e ≡ true
unfolding state_root_verdict
accepted_error svc e h = ground arith

module _ {c : Collections} (svc : Service) where
  block_error :
      (forced : Bool) (pre : BeaconState c) (blk : BeaconBlock) (e : Error)
      → state_root_verdict svc (transition svc.sp verify_context (copy pre) (some blk)).0 ≡ some e
      → (verify_incoming_block svc forced pre (some blk)).error ≡ some (plain e)
  unfolding verify_incoming_block verified_block
  block_error forced pre blk e h = rw h refl

  -- An accepted proposal of a block has passed both verifications.
  accepted_verified :
      (forced : Bool) (pre : BeaconState c) (blk : BeaconBlock) (sidecars : Option Sidecars)
      → process_proposal svc forced pre (some blk) sidecars ≡ true
      → (state_root_verdict svc (transition svc.sp verify_context (copy pre) (some blk)).0 ≡ none)
        × (verify_incoming_blobs svc (some blk) sidecars ≡ none)
  unfolding process_proposal receive_block_and_blobs join_fatal joined is_fatal is_fatal_error
  accepted_verified forced pre blk sidecars h =
      elim (Option-cases
        (state_root_verdict svc (transition svc.sp verify_context (copy pre) (some blk)).0)) [
          | inr (e, failed) ↦ let reported = block_error forced pre blk e failed in ground arith
          | inl passed ↦ elim (blob_errors svc blk sidecars) [
            | inl verified ↦ (passed, verified)
            | inr (e, failed) ↦ ground arith
          ]
        ]

  flushed_to :
      (pre post : BeaconState c) (kv : Kv c)
      → post.parent ≡ some kv
      → flushed svc pre post ≡ record pre { working = kv }
  unfolding flushed
  flushed_to pre post kv h = rw h refl

  pre_state-verified_block :
      (pre post : BeaconState c) (blk : BeaconBlock) (startup : List (Task c)) (o : Option Error)
      → (verified_block svc pre blk startup o post).pre_state ≡ flushed svc pre post
  unfolding verified_block
  pre_state-verified_block pre post blk startup none = refl
  pre_state-verified_block pre post blk startup (some e) = refl

  transition_failed :
      (pre : BeaconState c) (blk : BeaconBlock) (e : Error)
      → (process svc.sp verify_context blk pre.working).0 ≡ err e
      → transition svc.sp verify_context (copy pre) (some blk) ≡ (
        err e,
        record {
          working = (process svc.sp verify_context blk pre.working).1;
          parent = some pre.working;
        },
      )
  unfolding transition copy
  transition_failed pre blk e h = rw (h, finish) refl

  -- When the processing of the slots and the block of a proposal fails with an error `e`: the state
  -- that the verification was given is left as it was. If `e` is an accepted payload status, no error
  -- is reported, and the optimistic payload is started on the state where the processing stopped;
  -- otherwise `e` is reported, and the payload for the rejected block is built again on the state
  -- that was given. Neither build is started unless optimistic builds are on.
  pub verify_incoming_block_keeps :
      (forced : Bool) (pre : BeaconState c) (blk : BeaconBlock) (e : Error)
      → (process svc.sp verify_context blk pre.working).0 ≡ err e
      → verify_incoming_block svc forced pre (some blk) ≡ record {
        error = if svc.is_accepted_status e then none else some (plain e);
        pre_state = pre;
        tasks =
            (if forced then [] else force_startup_head pre.working ∷ [])
            ++ (if not (should_build_optimistic_payloads svc)
                then []
                else if svc.is_accepted_status e
                then build_optimistic_payload (process svc.sp verify_context blk pre.working).1 blk
                  ∷ []
                else rebuild_payload pre.working ∷ []);
      }
  unfolding verify_incoming_block verified_block flushed state_root_verdict
  verify_incoming_block_keeps forced pre blk e h = rw (transition_failed pre blk e h) (ground arith)

  verify_incoming_block_flushes :
      (forced : Bool) (pre : BeaconState c) (blk : BeaconBlock) (us : List ValidatorUpdate)
      → (process svc.sp verify_context blk pre.working).0 ≡ ok us
      → (verify_incoming_block svc forced pre (some blk)).pre_state.working
        ≡ (process svc.sp verify_context blk pre.working).1
  unfolding verify_incoming_block
  verify_incoming_block_flushes forced pre blk us h =
      let kept = (transition_ok_saves svc.sp verify_context pre blk us h).2 in
      let post = (transition svc.sp verify_context (copy pre) (some blk)).1 in
      ap (λ s. s.working)
        (pre_state-verified_block pre post blk _
          (state_root_verdict svc (transition svc.sp verify_context (copy pre) (some blk)).0))
      ∙ ap (λ s. s.working)
          (flushed_to pre post (process svc.sp verify_context blk pre.working).1 kept)

  processed_root :
      (blk : BeaconBlock) (kv kv' : Kv c) (us : List ValidatorUpdate)
      → process svc.sp verify_context blk kv ≡ (ok us, kv')
      → (c.read kv'.slot ≡ some blk.slot)
        × ((hash_tree_root svc.sp.state_root svc.sp.cs kv').0 ≡ ok blk.state_root)
  unfolding process
  processed_root blk kv kv' us h =
      let (updates, kv1, slots, rest) =
        >>=-Succeeds (process_slots svc.sp blk.slot) _ kv us kv' h in
      let (u, kv2, block, last) =
        >>=-Succeeds (process_block svc.sp verify_context blk) _ kv1 us kv' rest in
      let same : kv2 ≡ kv' = ap (λ p. p.1) last in
      let (slot, latest, payload, root) =
        process_block_sound svc.sp verify_context blk kv1 kv2 block in
      let rooted : (hash_tree_root svc.sp.state_root svc.sp.cs kv2).0 ≡ ok blk.state_root =
        elim root [ inl skipped ↦ cc | inr e ↦ e ] in
      (
        ap (λ k. c.read k.slot) (sym same) ∙ slot,
        ap (λ k. (hash_tree_root svc.sp.state_root svc.sp.cs k).0) (sym same) ∙ rooted,
      )

  -- When the proposal of a block is accepted, then either the state has become that of the block: it
  -- is at the block's slot and its root is the one that the block names; or the processing failed
  -- with an accepted payload status, and the state is as before. In both cases the blobs verified,
  -- or there were none.
  pub accepted_state :
      (forced : Bool) (pre : BeaconState c) (blk : BeaconBlock) (sidecars : Option Sidecars)
      → process_proposal svc forced pre (some blk) sidecars ≡ true
      → (((kv : Kv c) × ((verify_incoming_block svc forced pre (some blk)).pre_state.working ≡ kv)
            × (c.read kv.slot ≡ some blk.slot)
            × ((hash_tree_root svc.sp.state_root svc.sp.cs kv).0 ≡ ok blk.state_root))
          ⊎ ((e : Error) × ((process svc.sp verify_context blk pre.working).0 ≡ err e)
              × (svc.is_accepted_status e ≡ true)
              × ((verify_incoming_block svc forced pre (some blk)).pre_state ≡ pre)))
        × (verify_incoming_blobs svc (some blk) sidecars ≡ none)
  accepted_state forced pre blk sidecars h =
      let (passed, verified) = accepted_verified forced pre blk sidecars h in
      let run = process svc.sp verify_context blk pre.working in
      elim (Result-cases run.0) [
        | inl (us, done) ↦
            let (slot, root) = processed_root blk pre.working run.1 us (λ i. (done i, run.1)) in
            (
              inl (run.1, verify_incoming_block_flushes forced pre blk us done, slot, root),
              verified,
            )
        | inr (e, failed) ↦
            let reported = ap (λ t. t.0) (transition_failed pre blk e failed) in
            (
              inr (
                e,
                failed,
                accepted_error svc e (sym (ap (state_root_verdict svc) reported) ∙ passed),
                ap (λ v. v.pre_state) (verify_incoming_block_keeps forced pre blk e failed),
              ),
              verified,
            )
      ]
