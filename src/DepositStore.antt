-- ===== src/DepositStore.antt =====
-- mod/storage/pkg/deposit/store.go: the deposits seen on the execution layer, by index. The mutex is
-- left out; a map read fails only if there is no entry, and writes and removals succeed.
pub mod Queue
use beacon_kit.Prelude.{ℕ, zero, suc, [], ◌∷◌, none, some, List, add64}
use beacon_kit.Collections.{Collections}
use beacon_kit.Types.{Deposit}

module _ (c : Collections) where
  -- setDeposit, and EnqueueDeposit
  unfoldable pub set_deposit : c.Map Deposit → Deposit → c.Map Deposit
  set_deposit store deposit = c.put store deposit.index deposit

  unfoldable pub enqueue_deposits : c.Map Deposit → List Deposit → c.Map Deposit
  unfolding set_deposit
  enqueue_deposits store [] = store
  enqueue_deposits store (deposit ∷ deposits) =
      enqueue_deposits (set_deposit store deposit) deposits

  -- The loop of GetDepositsByIndex from its round `i` on; it ends at the first missing index.
  unfoldable pub deposits_from : c.Map Deposit → ℕ → ℕ → ℕ → List Deposit
  unfolding add64
  deposits_from store start i zero = []
  deposits_from store start i (suc n) =
      let rest = deposits_from store start (suc i) n in
      elim (c.get store (add64 start i)) [ none ↦ [] | some deposit ↦ deposit ∷ rest ]

  unfoldable pub get_deposits_by_index : c.Map Deposit → ℕ → ℕ → List Deposit
  unfolding deposits_from
  get_deposits_by_index store start_index num_view = deposits_from store start_index 0 num_view

  -- The loop of Prune from its round `i` on.
  unfoldable pub prune_from : c.Map Deposit → ℕ → ℕ → ℕ → c.Map Deposit
  unfolding add64
  prune_from store start i zero = store
  prune_from store start i (suc n) = prune_from (c.remove store (add64 start i)) start (suc i) n

  unfoldable pub prune : c.Map Deposit → ℕ → ℕ → c.Map Deposit
  unfolding prune_from
  prune store start end = prune_from store start 0 end
