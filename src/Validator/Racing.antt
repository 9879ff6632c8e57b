-- ===== src/Validator/Racing.antt =====
-- The two goroutines at the end of RequestBlockForProposal: one sets the state root of the block while
-- those of the other copy the header of the block into the sidecars.
use beacon_kit.Prelude.{
  some, true, false, Bool, length, if◌then◌else◌, ℕ, zero, suc, ◌≡◌, refl, arith, Bytes, ap, ◌∙◌,
  ◌≤◌, ◌<◌, ◌+◌, ◌∷◌, bytes_eq, [], bytes_eq_iff, bytes_eq_refl,
}
use beacon_kit.Exec.{Result, ok, err, bind_result, sidecar_contains_differing_block_roots}
use beacon_kit.DataAvailability.Factory.{
  SidecarFactory, BlobsBundle, build_sidecar, get_header, header_with, build_kzg_inclusion_proof,
  element, build_from, build_sidecars,
}
use beacon_kit.DataAvailability.{
  BlobVerifier, BlobSidecar, sidecar_root, dereference, same_block_roots, validate_block_roots,
  Sidecars,
}
use beacon_kit.Validator.{Surroundings, set_state_root}
use beacon_kit.Types.{BeaconBlock}
use beacon_kit.Validator.Proposal.{block_seen}

bytes_eq_differ : (xs ys : Bytes) → ¬ (xs ≡ ys) → bytes_eq xs ys ≡ false
bytes_eq_differ xs ys differ =
    elim (bytes_eq xs ys) as (λ t. bytes_eq xs ys ≡ t → t ≡ false) [
      | true ↦ λ e. absurd (differ ((bytes_eq_iff xs ys).0 e))
      | false ↦ λ e. refl
    ]
      refl

-- What follows a call that succeeded.
bind_result_ok :
    {A B : Type 0} {P : Type 0} (r : Result A) (f : A → Result B) (b : B)
    → bind_result r f ≡ ok b
    → ((a : A) → r ≡ ok a → f a ≡ ok b → P)
    → P
bind_result_ok (ok a) f b h k = k a refl h
bind_result_ok (err e) f b h k = absurd (ground arith)

module _ (f : SidecarFactory) (v : BlobVerifier) (bundle : BlobsBundle) where
  built_header :
      (blk : BeaconBlock) (i : ℕ) (sc : BlobSidecar) (body_root : Bytes)
      → f.body_root blk.body ≡ ok body_root
      → build_sidecar f blk bundle i ≡ ok sc
      → sc.beacon_block_header ≡ header_with blk body_root
  unfolding build_sidecar get_header
  built_header blk i sc body_root e h =
      bind_result_ok (build_kzg_inclusion_proof f blk.body i) _ sc h (λ proof h1 r1.
        bind_result_ok (get_header f blk) _ sc r1 (λ header h2 r2.
          bind_result_ok (element bundle.blobs i) _ sc r2 (λ blob h3 r3.
            bind_result_ok (element bundle.commitments i) _ sc r3 (λ commitment h4 r4.
              bind_result_ok (element bundle.proofs i) _ sc r4 (λ kzg_proof h5 r5. ground arith)))))

  module _ (env : Surroundings) (blk : BeaconBlock) (root body_root before later : Bytes)
      (body_eq : f.body_root blk.body ≡ ok body_root)
      (before_eq : v.header_root (header_with blk body_root) ≡ ok before)
      (later_eq : v.header_root (header_with (set_state_root blk root) body_root) ≡ ok later)
      (differ : ¬ (before ≡ later)) where
    -- The root that the receivers compute for the header of a sidecar.
    seen_root :
        (i : ℕ) (sc : BlobSidecar) (late : Bool)
        → env.reads_root i ≡ late
        → build_sidecar f (block_seen env blk root i) bundle i ≡ ok sc
        → sidecar_root v (some sc) ≡ ok (if late then later else before)
    unfolding sidecar_root dereference block_seen set_state_root
    seen_root i sc true e h =
        ap v.header_root
          (built_header (set_state_root blk root) i sc body_root body_eq (ground arith))
        ∙ later_eq
    seen_root i sc false e h =
        ap v.header_root (built_header blk i sc body_root body_eq (ground arith)) ∙ before_eq

    -- The indices of a sidecar that was early and of one that was late are not the same.
    early_not_late : (i j : ℕ) → env.reads_root i ≡ false → env.reads_root j ≡ true → ¬ (i ≡ j)
    early_not_late i j early late same = absurd (cc)

    -- A sidecar with the header from before the root was set lets the loop go on, a later one ends it.
    loop_step :
        (i : ℕ) (sc : BlobSidecar) (rest : Sidecars) (late : Bool)
        → env.reads_root i ≡ late
        → build_sidecar f (block_seen env blk root i) bundle i ≡ ok sc
        → same_block_roots v before (some sc ∷ rest) ≡ (
            if late
            then err sidecar_contains_differing_block_roots
            else same_block_roots v before rest)
    unfolding same_block_roots
    loop_step i sc rest true e h =
        let r = seen_root i sc true e h in
        let other : bytes_eq before later ≡ false = bytes_eq_differ before later differ in
        ground arith
    loop_step i sc rest false e h =
        let r = seen_root i sc false e h in let same = bytes_eq_refl before in ground arith

    late_rejected :
        (i n j : ℕ) (scs : Sidecars)
        → build_from f (block_seen env blk root) bundle i n ≡ ok scs
        → env.reads_root j ≡ true
        → i ≤ j
        → j < i + n
        → same_block_roots v before scs ≡ err sidecar_contains_differing_block_roots
    unfolding build_from
    late_rejected i zero j scs h e l1 l2 = absurd (omega arith)
    late_rejected i (suc n) j scs h e l1 l2 =
        bind_result_ok (build_sidecar f (block_seen env blk root i) bundle i) _ scs h (λ sc h1 r1.
          bind_result_ok (build_from f (block_seen env blk root) bundle (suc i) n) _ scs r1
            (λ rest h2 r2.
              let listed : scs ≡ some sc ∷ rest = ground arith in
              rw listed (
                elim (env.reads_root i)
                    as (λ late.
                      env.reads_root i ≡ late
                      → same_block_roots v before (some sc ∷ rest)
                        ≡ err sidecar_contains_differing_block_roots) [
                          | true ↦ λ r. loop_step i sc rest true r h1
                          | false ↦ λ r.
                              loop_step i sc rest false r h1
                              ∙ late_rejected (suc i) n j rest h2 e
                                  (omega (arith, early_not_late i j r e)) (omega arith)
                        ]
                  refl)))

    against_first :
        (sc : BlobSidecar) (rest : Sidecars)
        → sidecar_root v (some sc) ≡ ok before
        → same_block_roots v before rest ≡ err sidecar_contains_differing_block_roots
        → validate_block_roots v (some sc ∷ rest) ≡ err sidecar_contains_differing_block_roots
    unfolding validate_block_roots same_block_roots
    against_first sc [] e h = absurd (ground arith)
    against_first sc (next ∷ scs) e h = ground arith

    from_the_first :
        (n j : ℕ) (scs : Sidecars)
        → build_from f (block_seen env blk root) bundle 0 n ≡ ok scs
        → env.reads_root 0 ≡ false
        → env.reads_root j ≡ true
        → j < n
        → validate_block_roots v scs ≡ err sidecar_contains_differing_block_roots
    unfolding build_from
    from_the_first zero j scs h e0 e l = absurd (omega arith)
    from_the_first (suc n) j scs h e0 e l =
        bind_result_ok (build_sidecar f (block_seen env blk root 0) bundle 0) _ scs h (λ sc h1 r1.
          bind_result_ok (build_from f (block_seen env blk root) bundle 1 n) _ scs r1 (λ rest h2 r2.
            let listed : scs ≡ some sc ∷ rest = ground arith in
            let late =
              late_rejected 1 n j rest h2 e (omega (arith, early_not_late 0 j e0 e))
                (omega arith) in
            rw listed (against_first sc rest (seen_root 0 sc false e0 h1) late)))

    -- Sidecars that are built for a block, when the goroutine of the first blob copies the header
    -- before the state root is set, and that of blob `j` copies it after: when the body has a root, and
    -- the headers without and with the state root have different roots, the receivers of the
    -- sidecars reject them.
    pub racing_sidecars_rejected :
        (j : ℕ) (scs : Sidecars)
        → build_sidecars f (block_seen env blk root) bundle ≡ ok scs
        → env.reads_root 0 ≡ false
        → env.reads_root j ≡ true
        → j < length bundle.blobs
        → validate_block_roots v scs ≡ err sidecar_contains_differing_block_roots
    unfolding build_sidecars
    racing_sidecars_rejected j scs h e0 e l = from_the_first (length bundle.blobs) j scs h e0 e l
