-- ===== src/Processor/Block/Skips.antt =====
-- The checks that a context skips decide whether a block is accepted, not what it does to the state.
use beacon_kit.Prelude.{true, ◌≡◌, refl, arith, Bool, Bytes, ap, sym, ◌∙◌, bytes_eq_refl}
use beacon_kit.Exec.{Result, ok, err, Exec, ◌>>=◌, ◌>>◌, continue}
use beacon_kit.Exec.Success.{Succeeds, >>=-Succeeds}
use beacon_kit.Collections.{Collections}
use beacon_kit.BeaconDb.{Kv}
use beacon_kit.Types.{Context, BeaconBlock}
use beacon_kit.Processor.{StateProcessor}
use beacon_kit.Processor.Header.{process_block_header}
use beacon_kit.Processor.Payload.{process_execution_payload, validate_execution_payload}
use beacon_kit.Processor.Withdrawals.{process_withdrawals}
use beacon_kit.Processor.Randao.{process_randao_reveal, verify_randao_reveal}
use beacon_kit.Processor.Deposits.{process_operations}
use beacon_kit.Processor.Block.{process_block, validate_result}
use beacon_kit.StateDb.{hash_tree_root}
use beacon_kit.StateDb.Hashing.{hash_tree_root-IsReader}

module _ {S A B C : Type 0} where
  -- A sequence may be bracketed either way.
  continue_assoc :
      (f : A → Exec S B) (g : B → Exec S C) (r : Result A) (s : S)
      → continue r (λ a. f a >>= g) s ≡ continue (continue r f s).0 g (continue r f s).1
  continue_assoc f g (ok a) s = refl
  continue_assoc f g (err e) s = refl

  bind_assoc :
      (m : Exec S A) (f : A → Exec S B) (g : B → Exec S C) (s : S)
      → (m >>= λ a. f a >>= g) s ≡ ((m >>= f) >>= g) s
  bind_assoc m f g s = continue_assoc f g ((m s).0) (m s).1

module _ {c : Collections} (sp : StateProcessor) where
  -- ProcessBlock up to the check of the result.
  unfoldable pub block_steps : Context → BeaconBlock → Exec (Kv c) Unit
  block_steps ctx blk = do
    process_block_header sp blk
    process_execution_payload sp ctx blk
    process_withdrawals sp blk.body
    process_randao_reveal sp blk ctx.skip_validate_randao
    process_operations sp blk

  process_block-block_steps :
      (ctx : Context) (blk : BeaconBlock) (kv : Kv c)
      → process_block sp ctx blk kv ≡ (block_steps ctx blk >> validate_result sp ctx blk) kv
  unfolding process_block block_steps
  process_block-block_steps ctx blk kv = ground arith

  payload_skip :
      (ctx skip : Context) (blk : BeaconBlock) (kv kv' : Kv c)
      → skip.skip_payload_verification ≡ true
      → Succeeds (process_execution_payload sp ctx blk) kv tt kv'
      → Succeeds (process_execution_payload sp skip blk) kv tt kv'
  unfolding process_execution_payload
  payload_skip ctx skip blk kv kv' e h = ground arith

  randao_skip :
      (blk : BeaconBlock) (checked : Bool) (kv kv' : Kv c)
      → Succeeds (process_randao_reveal sp blk checked) kv tt kv'
      → Succeeds (process_randao_reveal sp blk true) kv tt kv'
  unfolding process_randao_reveal verify_randao_reveal
  randao_skip blk checked kv kv' h = ground arith

  -- No step reads the state root of the block.
  header_free :
      (blk : BeaconBlock) (root : Bytes)
      → process_block_header {c = c} sp (record blk { state_root = root })
        ≡ process_block_header sp blk
  unfolding process_block_header
  header_free blk root = refl

  payload_free :
      (ctx : Context) (blk : BeaconBlock) (root : Bytes)
      → process_execution_payload {c = c} sp ctx (record blk { state_root = root })
        ≡ process_execution_payload sp ctx blk
  unfolding process_execution_payload validate_execution_payload
  payload_free ctx blk root = refl

  randao_free :
      (blk : BeaconBlock) (root : Bytes) (skip : Bool)
      → process_randao_reveal {c = c} sp (record blk { state_root = root }) skip
        ≡ process_randao_reveal sp blk skip
  unfolding process_randao_reveal verify_randao_reveal
  randao_free blk root skip = refl

  operations_free :
      (blk : BeaconBlock) (root : Bytes)
      → process_operations {c = c} sp (record blk { state_root = root }) ≡ process_operations sp blk
  unfolding process_operations
  operations_free blk root = refl

  -- A block that is processed up to the check of the result is processed to the same state by a context
  -- that skips the checks of the payload and of the RANDAO reveal, and whatever the block says its state
  -- root is.
  block_steps_skip :
      (ctx skip : Context) (blk : BeaconBlock) (root : Bytes) (kv kv' : Kv c)
      → skip.skip_payload_verification ≡ true
      → skip.skip_validate_randao ≡ true
      → Succeeds (block_steps ctx blk) kv tt kv'
      → Succeeds (block_steps skip (record blk { state_root = root })) kv tt kv'
  unfolding block_steps process_execution_payload
  block_steps_skip ctx skip blk root kv kv' p r h =
      let (u1, kv1, h1, r1) = >>=-Succeeds (process_block_header sp blk) _ kv tt kv' h in
      let (u2, kv2, h2, r2) = >>=-Succeeds (process_execution_payload sp ctx blk) _ kv1 tt kv' r1 in
      let (u3, kv3, h3, r3) = >>=-Succeeds (process_withdrawals sp blk.body) _ kv2 tt kv' r2 in
      let (u4, kv4, h4, h5) =
        >>=-Succeeds (process_randao_reveal sp blk ctx.skip_validate_randao) _ kv3 tt kv' r3 in
      let payload = payload_skip ctx skip blk kv1 kv2 p h2 in
      let randao = randao_skip blk ctx.skip_validate_randao kv3 kv4 h4 in
      let e1 = header_free blk root in
      let e2 = payload_free skip blk root in
      let e3 = randao_free blk root true in
      let e4 = operations_free blk root in
      rw (e1, e2, r, e3, e4) (rw (h1, payload, h3, randao, h5) refl)

  result_checked :
      (ctx : Context) (blk : BeaconBlock) (kv : Kv c)
      → (hash_tree_root sp.state_root sp.cs kv).0 ≡ ok blk.state_root
      → Succeeds (validate_result sp ctx blk) kv tt kv
  unfolding validate_result
  result_checked ctx blk kv h =
      ground
        (arith, (hash_tree_root-IsReader sp.state_root sp.cs).at kv, bytes_eq_refl blk.state_root)

  -- Without the check of the result, a block is processed as by its steps.
  steps_unchecked :
      (ctx : Context) (blk : BeaconBlock) (kv : Kv c)
      → ctx.skip_validate_result ≡ true
      → process_block sp ctx blk kv ≡ block_steps ctx blk kv
  unfolding validate_result
  steps_unchecked ctx blk kv e =
      let split = process_block-block_steps ctx blk kv in
      elim ((block_steps ctx blk kv).0)
          as (λ r.
            (block_steps ctx blk kv).0 ≡ r → process_block sp ctx blk kv ≡ block_steps ctx blk kv) [
              | ok u ↦ λ h. ground arith
              | err x ↦ λ h. ground arith
            ]
        refl

  -- When a block was processed with every check skipped, and then given the root of the state that came
  -- out: from the same state, if it passes the other checks of a context, it passes its check of the
  -- result too.
  pub own_root_accepted :
      (ctx skip : Context) (blk : BeaconBlock) (root : Bytes) (kv made kv' : Kv c)
      → skip.skip_payload_verification ≡ true
      → skip.skip_validate_randao ≡ true
      → skip.skip_validate_result ≡ true
      → Succeeds (process_block sp skip blk) kv tt made
      → (hash_tree_root sp.state_root sp.cs made).0 ≡ ok root
      → Succeeds
          (process_block sp
            (record ctx { skip_validate_result = true })
            (record blk { state_root = root }))
          kv
          tt
          kv'
      → Succeeds (process_block sp ctx (record blk { state_root = root })) kv tt kv'
  unfolding block_steps process_execution_payload
  own_root_accepted ctx skip blk root kv made kv' p r v h e k =
      let sealed = record blk { state_root = root } in
      let plain = record ctx { skip_validate_result = true } in
      let steps : Succeeds (block_steps plain sealed) kv tt kv' =
        sym (steps_unchecked plain sealed kv refl) ∙ k in
      let skipped : Succeeds (block_steps skip blk) kv tt kv' =
        block_steps_skip plain skip sealed blk.state_root kv kv' p r steps in
      let same : kv' ≡ made =
        ap (λ x. x.1) (sym skipped ∙ (sym (steps_unchecked skip blk kv v) ∙ h)) in
      let rooted : (hash_tree_root sp.state_root sp.cs kv').0 ≡ ok root =
        ap (λ s. (hash_tree_root sp.state_root sp.cs s).0) same ∙ e in
      let checked = result_checked ctx sealed kv' rooted in
      let done : Succeeds (block_steps ctx sealed) kv tt kv' = steps in
      process_block-block_steps ctx sealed kv
      ∙ ap (λ x. continue x.0 (λ u. validate_result sp ctx sealed) x.1) done
      ∙ checked
