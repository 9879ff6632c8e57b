-- ===== src/Pruner/Deposits.antt =====
-- What the pruner of the deposit store removes.
use beacon_kit.Prelude.{
  ℕ, [], ◌∷◌, ◌≡◌, arith, ◌<◌, ◌-◌, none, some, true, u64_mod, leb, ltb, ◌&&◌, if◌then◌else◌,
}
use beacon_kit.DepositStore.Queue.{prune_effect}
use beacon_kit.Collections.{Collections}
use beacon_kit.Pruner.{
  range_below, prune_deposits, lesser, run_pruner, handle_event, deposit_prune_range, BlockEvent,
  last_deposit,
}
use beacon_kit.Types.{Deposit}
use beacon_kit.DepositStore.{prune}
use beacon_kit.Chain.{ChainSpec}

module _ (c : Collections) where
  range_below_effect :
      (store : c.Map Deposit) (index max_deposits j : ℕ)
      → index < u64_mod
      → c.get
          (prune c store (range_below index max_deposits).0 (range_below index max_deposits).1)
          j
        ≡ (if leb (index - max_deposits) j && ltb j index then none else c.get store j)
  unfolding range_below lesser
  range_below_effect store index max_deposits j l =
      let below = prune_effect c store 0 index j (omega arith) in
      let above = prune_effect c store (index - max_deposits) max_deposits j in ground arith

  -- When a finalized block has deposits, the last of them at `index`, a uint64, the pruner removes
  -- the MaxDepositsPerBlock deposits below `index`, or all below it if they are fewer, and keeps
  -- all others, that at `index` included.
  pub finalized_deposits_pruned :
      (cs : ChainSpec) (event : BlockEvent) (store : c.Map Deposit) (deposit : Deposit) (j : ℕ)
      → event.is_finalized ≡ true
      → last_deposit event.block.body.deposits ≡ some deposit
      → deposit.index < u64_mod
      → c.get (prune_deposits c cs (event ∷ []) store) j ≡ (
          if leb (deposit.index - cs.max_deposits_per_block) j && ltb j deposit.index
          then none
          else c.get store j)
  unfolding prune_deposits run_pruner handle_event deposit_prune_range
  finalized_deposits_pruned cs event store deposit j fin last l =
      let removed = range_below_effect store deposit.index cs.max_deposits_per_block j l in
      ground arith
