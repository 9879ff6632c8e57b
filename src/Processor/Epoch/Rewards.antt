-- ===== src/Processor/Epoch/Rewards.antt =====
-- The rewards and penalties of an epoch: what the loop over the validators does to the balances,
-- whatever the deltas are.
use beacon_kit.Prelude.{
  ℕ, suc, ◌+◌, ◌-◌, ◌<◌, ◌≤◌, ◌==◌, List, [], ◌∷◌, length, if◌then◌else◌, some, ◌≡◌, refl, arith,
  add64, add64_eq, add64-lt,
}
use beacon_kit.Exec.{ok}
use beacon_kit.Collections.{Collections}
use beacon_kit.BeaconDb.{Kv}
use beacon_kit.StateDb.{increase_balance, decrease_balance}
use beacon_kit.StateDb.Balances.{balance_at, decrease_balance_saturates}
use beacon_kit.StateDb.Sweep.Sound.{IsU64Balances}
use beacon_kit.Processor.{StateProcessor}
use beacon_kit.Processor.Epoch.{apply_deltas}

-- The entry for validator `j` of a list whose first entry is for validator `i`; 0 if there is none.
abbrev pub delta_of : ℕ → ℕ → List ℕ → ℕ
delta_of j i [] = 0
delta_of j i (d ∷ ds) = if i == j then d else delta_of j (suc i) ds

delta_of_earlier : (j i : ℕ) (ds : List ℕ) → j < i → delta_of j i ds ≡ 0
delta_of_earlier j i [] l = refl
delta_of_earlier j i (d ∷ ds) l = ground (arith, delta_of_earlier j (suc i) ds (omega arith))

-- The `n` validators from `i` on have a balance.
pub record IsHeld {c : Collections} (kv : Kv c) (i n : ℕ) : Type 0 where
  pub at : (m : ℕ) → i ≤ m → m < i + n → (b : ℕ) × (balance_at kv m ≡ some b)

module _ {c : Collections} where
  increased :
      (i r b : ℕ) (kv : Kv c)
      → balance_at kv i ≡ some b
      → (m : ℕ)
      → ((increase_balance i r kv).0 ≡ ok tt)
        × (balance_at (increase_balance i r kv).1 m
            ≡ (if i == m then some (add64 b r) else balance_at kv m))
  unfolding increase_balance
  increased i r b kv e m = ground (arith, c.get-put kv.balances i (add64 b r) m)

  -- One turn of the loop.
  abbrev turned : ℕ → ℕ → ℕ → Kv c → Kv c
  turned i r p kv = (decrease_balance i p (increase_balance i r kv).1).1

  turn_balances :
      (i r p b : ℕ) (kv : Kv c)
      → balance_at kv i ≡ some b
      → (m : ℕ)
      → ((decrease_balance i p (increase_balance i r kv).1).0 ≡ ok tt)
        × (balance_at (turned i r p kv) m
            ≡ (if i == m then some (add64 b r - p) else balance_at kv m))
  turn_balances i r p b kv e m =
      let here : balance_at (increase_balance i r kv).1 i ≡ some (add64 b r) =
        ground (arith, increased i r b kv e i) in
      ground (
        arith,
        increased i r b kv e m,
        decrease_balance_saturates (increase_balance i r kv).1 i p (add64 b r) here (add64-lt b r)
            m,
      )

  turn_IsU64 :
      (i r p b : ℕ) (kv : Kv c)
      → balance_at kv i ≡ some b
      → IsU64Balances kv
      → IsU64Balances (turned i r p kv)
  turn_IsU64 i r p b kv e words = record {
    at = λ m x q. ground (arith, words.at m x, turn_balances i r p b kv e m, add64-lt b r);
  }

  turn_IsHeld :
      (i r p b n : ℕ) (kv : Kv c)
      → balance_at kv i ≡ some b
      → IsHeld kv i (suc n)
      → IsHeld (turned i r p kv) (suc i) n
  turn_IsHeld i r p b n kv e held = record {
    at = λ m l h.
        let (x, q) = held.at m (omega arith) (omega arith) in
        (x, ground (arith, turn_balances i r p b kv e m));
  }

  turn_taken :
      (sp : StateProcessor) (i r p b : ℕ) (rs ps : List ℕ) (kv : Kv c)
      → balance_at kv i ≡ some b
      → apply_deltas sp i (r ∷ rs) (p ∷ ps) kv ≡ apply_deltas sp (suc i) rs ps (turned i r p kv)
  unfolding apply_deltas
  turn_taken sp i r p b rs ps kv e =
      ground (arith, increased i r b kv e i, turn_balances i r p b kv e i)

  -- For lists of rewards and penalties of the same length, for the validators from `i` on, on a
  -- state with uint64 balances in which each of these validators has one: the loop succeeds. Each
  -- balance, of the other validators too, has then risen by the reward of its validator, with the
  -- wrap-around of uint64, and fallen by the penalty, down to zero at most; a validator without an
  -- entry has zero for both.
  pub apply_deltas_effect :
      (sp : StateProcessor) (i : ℕ) (rs ps : List ℕ) (kv : Kv c)
      → length rs ≡ length ps
      → IsU64Balances kv
      → IsHeld kv i (length rs)
      → ((apply_deltas sp i rs ps kv).0 ≡ ok tt)
        × ((j b : ℕ)
            → balance_at kv j ≡ some b
            → balance_at (apply_deltas sp i rs ps kv).1 j
              ≡ some (add64 b (delta_of j i rs) - delta_of j i ps))
  apply_deltas_effect sp i [] [] kv n words held =
      unfold apply_deltas in (refl, λ j b e. ground (arith, words.at j b e, add64_eq b 0))
  apply_deltas_effect sp i [] (p ∷ ps) kv n words held = absurd (omega arith)
  apply_deltas_effect sp i (r ∷ rs) [] kv n words held = absurd (omega arith)
  apply_deltas_effect sp i (r ∷ rs) (p ∷ ps) kv n words held =
      let (b0, e0) = held.at i (omega arith) (omega arith) in
      let step = turn_taken sp i r p b0 rs ps kv e0 in
      let (done, effect) =
        apply_deltas_effect sp (suc i) rs ps (turned i r p kv) (omega arith)
          (turn_IsU64 i r p b0 kv e0 words) (turn_IsHeld i r p b0 (length rs) kv e0 held) in
      (
        ground arith,
        λ j b e. ground (
          arith,
          turn_balances i r p b0 kv e0 j,
          effect j b,
          effect j (add64 b0 r - p),
          delta_of_earlier j (suc i) rs,
          delta_of_earlier j (suc i) ps,
          add64_eq (add64 b0 r - p) 0,
          add64-lt b0 r,
        ),
      )
