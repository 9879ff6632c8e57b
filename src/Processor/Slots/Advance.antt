-- ===== src/Processor/Slots/Advance.antt =====
-- ProcessSlots: the slot that it reaches, and its composition.
use beacon_kit.Prelude.{
  ℕ, zero, suc, ◌+◌, ◌<◌, List, some, ◌≡◌, refl, arith, u64_mod, add64, add64_eq, max, ◌-◌, ◌++◌,
  ap, ◌≤◌,
}
use beacon_kit.Exec.{Result, ok, err, Exec, ◌>>=◌, pure, continue}
use beacon_kit.Collections.{Collections}
use beacon_kit.Types.{ValidatorUpdate}
use beacon_kit.BeaconDb.{Kv}
use beacon_kit.Processor.{StateProcessor}
use beacon_kit.Processor.Slots.{advance_slot, slot_loop, process_slots}
use mathlib.Core.List.{append_assoc}
use beacon_kit.Exec.Success.{Succeeds, >>=-Succeeds}

module _ {c : Collections} (sp : StateProcessor) where
  -- A round of the loop leaves the state at the next slot.
  pub advance_slot_reads :
      (n : ℕ) (kv : Kv c) {us : List ValidatorUpdate} {kv' : Kv c}
      → Succeeds (advance_slot sp n) kv us kv'
      → c.read kv'.slot ≡ some (add64 n 1)
  unfolding advance_slot
  advance_slot_reads n kv h = grind (arith, c.read-write)

  slot_loop_reads :
      (rounds n : ℕ) (kv : Kv c) (us : List ValidatorUpdate) (kv' : Kv c)
      → rounds + n < u64_mod
      → c.read kv.slot ≡ some n
      → Succeeds (slot_loop sp rounds n) kv us kv'
      → c.read kv'.slot ≡ some (rounds + n)
  unfolding slot_loop
  slot_loop_reads zero n kv us kv' l r h = ground arith
  slot_loop_reads (suc rounds) n kv us kv' l r h =
      let (us1, kv1, h1, h2) = >>=-Succeeds (advance_slot sp n) _ kv us kv' h in
      let (us2, kv2, h3, h4) = >>=-Succeeds (slot_loop sp rounds (suc n)) _ kv1 us kv' h2 in
      ground (
        arith,
        add64_eq n 1,
        advance_slot_reads n kv h1,
        slot_loop_reads rounds (suc n) kv1 us2 kv2,
      )

  -- With uint64 slots: a call that succeeds leaves the state at the slot asked for, or at its own
  -- if that is later.
  pub process_slots_reaches :
      (target s : ℕ) (kv : Kv c) (us : List ValidatorUpdate) (kv' : Kv c)
      → s < u64_mod
      → target < u64_mod
      → c.read kv.slot ≡ some s
      → Succeeds (process_slots sp target) kv us kv'
      → c.read kv'.slot ≡ some (max s target)
  unfolding process_slots
  process_slots_reaches target s kv us kv' ls lt r h =
      ground (arith, slot_loop_reads (target - s) s kv us kv')

module _ {S B : Type 0} (us : List B) where
  -- Appending in front before or after a later part.
  append_last :
      (vs : List B) (r : Result (List B)) (t : S)
      → continue
          (continue r (λ ws. pure (vs ++ ws)) t).0
          (λ xs. pure (us ++ xs))
          (continue r (λ ws. pure (vs ++ ws)) t).1
        ≡ continue r (λ ws. pure ((us ++ vs) ++ ws)) t
  append_last vs (ok ws) t = rw append_assoc
  append_last vs (err e) t = refl

  append_first :
      (k : Exec S (List B)) (r : Result (List B)) (t : S)
      → continue
          (continue r (λ vs. k >>= λ ws. pure (vs ++ ws)) t).0
          (λ xs. pure (us ++ xs))
          (continue r (λ vs. k >>= λ ws. pure (vs ++ ws)) t).1
        ≡ continue
            (continue r (λ vs. pure (us ++ vs)) t).0
            (λ xs. k >>= λ ws. pure (xs ++ ws))
            (continue r (λ vs. pure (us ++ vs)) t).1
  append_first k (ok vs) t = append_last vs ((k t).0) (k t).1
  append_first k (err e) t = refl

module _ {c : Collections} (sp : StateProcessor) where
  split_step :
      (a b k n : ℕ) (r : Result (List ValidatorUpdate)) (t : Kv c)
      → ((u : Kv c)
          → slot_loop sp k (suc n) u
            ≡ (slot_loop sp a (suc n) >>= λ us.
                  slot_loop sp b (a + suc n) >>= λ vs. pure (us ++ vs))
                u)
      → continue r (λ us. slot_loop sp k (suc n) >>= λ rest. pure (us ++ rest)) t
        ≡ continue
            (continue r (λ us. slot_loop sp a (suc n) >>= λ rest. pure (us ++ rest)) t).0
            (λ us. slot_loop sp b (a + suc n) >>= λ vs. pure (us ++ vs))
            (continue r (λ us. slot_loop sp a (suc n) >>= λ rest. pure (us ++ rest)) t).1
  split_step a b k n (ok us) t ih = rw (ih t) (
      append_first us (slot_loop sp b (a + suc n)) ((slot_loop sp a (suc n) t).0)
        (slot_loop sp a (suc n) t).1)
  split_step a b k n (err e) t ih = refl

  -- The loop over `k` rounds is the loop over its first `a` followed by the other `b`.
  slot_loop_split :
      (a b k n : ℕ) (kv : Kv c)
      → k ≡ a + b
      → slot_loop sp k n kv
        ≡ (slot_loop sp a n >>= λ us. slot_loop sp b (a + n) >>= λ vs. pure (us ++ vs)) kv
  unfolding slot_loop
  slot_loop_split zero b k n kv e =
      let e' : k ≡ b = omega arith in
      let z : zero + n ≡ n = omega arith in rw (e', z) (ground arith)
  slot_loop_split (suc a) b zero n kv e = absurd (omega arith)
  slot_loop_split (suc a) b (suc k) n kv e =
      let q : suc a + n ≡ a + suc n = omega arith in
      rw q (
        split_step a b k n ((advance_slot sp n kv).0) (advance_slot sp n kv).1
          (λ u. slot_loop_split a b k (suc n) u (omega arith)))

  -- From a state at slot `s`, with `s` ≤ `mid` ≤ `target` < 2^64: catching up to `target` in one
  -- call is catching up to `mid` first, and from there to `target`: the same updates in the same
  -- order, the same state, and the same error if one fails.
  pub process_slots_compose :
      (s mid target : ℕ) (kv : Kv c)
      → s ≤ mid
      → mid ≤ target
      → target < u64_mod
      → c.read kv.slot ≡ some s
      → process_slots sp target kv
        ≡ (process_slots sp mid >>= λ us. process_slots sp target >>= λ vs. pure (us ++ vs)) kv
  unfolding process_slots
  process_slots_compose s mid target kv h1 h2 h3 r =
      elim ((slot_loop sp (mid - s) s kv).0)
          as (λ x.
            (slot_loop sp (mid - s) s kv).0 ≡ x
            → process_slots sp target kv
              ≡ (process_slots sp mid >>= λ us. process_slots sp target >>= λ vs. pure (us ++ vs))
                  kv) [
                    | ok us ↦ λ e. ground (
                      arith,
                      slot_loop_split (mid - s) (target - mid) (target - s) s kv,
                      slot_loop_reads sp (mid - s) s kv us (slot_loop sp (mid - s) s kv).1,
                      ap (λ (m : ℕ). slot_loop {c = c} sp (target - mid) m)
                          (let q : (mid - s) + s ≡ mid = omega arith in q),
                    )
                    | err x ↦ λ e.
                        ground (arith, slot_loop_split (mid - s) (target - mid) (target - s) s kv)
                  ]
        refl
