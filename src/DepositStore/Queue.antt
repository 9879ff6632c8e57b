-- ===== src/DepositStore/Queue.antt =====
-- The store as a queue of deposits, and the range that is pruned.
use beacon_kit.Prelude.{
  ltb, leb, ◌&&◌, u64_mod, add64_eq, ℕ, zero, suc, [], ◌∷◌, none, refl, arith, ◌≡◌, length, take,
  get_elem?, List, ◌+◌, ◌<◌, ◌≤◌, u64_mod, add64_eq, if◌then◌else◌, leb, ◌&&◌, ltb,
}
use beacon_kit.Collections.{Collections}
use beacon_kit.Types.{Deposit}
use beacon_kit.DepositStore.{
  enqueue_deposits, deposits_from, get_deposits_by_index, prune_from, prune,
}

-- Deposits whose indices count up from a number.
abbrev pub IsNumbered : ℕ → List Deposit → Type 0
IsNumbered n [] = Unit
IsNumbered n (deposit ∷ deposits) = (deposit.index ≡ n) × IsNumbered (suc n) deposits

module _ (c : Collections) where
  enqueue_keeps :
      (deposits : List Deposit) (store : c.Map Deposit) (n j : ℕ)
      → IsNumbered n deposits
      → j < n
      → c.get (enqueue_deposits c store deposits) j ≡ c.get store j
  unfolding enqueue_deposits
  enqueue_keeps [] store n j numbered l = refl
  enqueue_keeps (deposit ∷ deposits) store n j numbered l = ground (
    arith,
    enqueue_keeps deposits (c.put store deposit.index deposit) (suc n) j,
    c.get-put store deposit.index deposit j,
  )

  enqueue_finds :
      (deposits : List Deposit) (store : c.Map Deposit) (n k : ℕ)
      → IsNumbered n deposits
      → k < length deposits
      → c.get (enqueue_deposits c store deposits) (n + k) ≡ get_elem? deposits k
  unfolding enqueue_deposits
  enqueue_finds [] store n k numbered l = absurd (omega arith)
  enqueue_finds (deposit ∷ deposits) store n zero numbered l = ground (
    arith,
    enqueue_keeps deposits (c.put store deposit.index deposit) (suc n) n,
    c.get-put store deposit.index deposit n,
  )
  enqueue_finds (deposit ∷ deposits) store n (suc k) numbered l =
      ground (arith, enqueue_finds deposits (c.put store deposit.index deposit) (suc n) k)

  deposits_from-take :
      (n i start : ℕ) (xs : List Deposit) (store : c.Map Deposit)
      → n ≤ length xs
      → start + i + n < u64_mod
      → ((k : ℕ) → k < n → c.get store (start + i + k) ≡ get_elem? xs k)
      → deposits_from c store start i n ≡ take n xs
  unfolding deposits_from
  deposits_from-take zero i start xs store l u found = ground arith
  deposits_from-take (suc n) i start [] store l u found = absurd (omega arith)
  deposits_from-take (suc n) i start (x ∷ xs) store l u found =
      let next : (k : ℕ) → k < n → c.get store (start + suc i + k) ≡ get_elem? xs k =
        λ k b. ground (arith, found (suc k)) in
      ground (
        arith,
        found 0,
        add64_eq start i,
        deposits_from-take n (suc i) start xs store (omega arith) (omega arith) next,
      )

  -- Reading `n` deposits at the number of the first gives the first `n` of a list that was enqueued
  -- with consecutive indices from there, whatever the store held before.
  pub get_deposits_by_index-enqueue_deposits :
      (store : c.Map Deposit) (deposits : List Deposit) (start n : ℕ)
      → IsNumbered start deposits
      → n ≤ length deposits
      → start + n < u64_mod
      → get_deposits_by_index c (enqueue_deposits c store deposits) start n ≡ take n deposits
  unfolding get_deposits_by_index
  get_deposits_by_index-enqueue_deposits store deposits start n numbered l u =
      deposits_from-take n 0 start deposits (enqueue_deposits c store deposits) l (omega arith)
        (λ k b. ground (arith, enqueue_finds deposits store start k))

  prune_from_effect :
      (n i start : ℕ) (store : c.Map Deposit) (j : ℕ)
      → start + i + n < u64_mod
      → c.get (prune_from c store start i n) j
        ≡ (if leb (start + i) j && ltb j (start + i + n) then none else c.get store j)
  unfolding prune_from
  prune_from_effect zero i start store j u = ground arith
  prune_from_effect (suc n) i start store j u = ground (
    arith,
    add64_eq start i,
    c.get-remove store (start + i) j,
    prune_from_effect n (suc i) start (c.remove store (start + i)) j,
  )

  -- With `start` + `end` below 2^64: pruning removes the deposits from `start` on, `end` of them,
  -- and keeps all others.
  pub prune_effect :
      (store : c.Map Deposit) (start end j : ℕ)
      → start + end < u64_mod
      → c.get (prune c store start end) j
        ≡ (if leb start j && ltb j (start + end) then none else c.get store j)
  unfolding prune
  prune_effect store start end j u = ground (arith, prune_from_effect end 0 start store j)
