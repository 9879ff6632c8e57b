-- ===== src/Processor/Deposits/Registry.antt =====
-- What deposits do to the registry, the balances and the deposit index.
use beacon_kit.Prelude.{
  ℕ, ◌≡◌, some, min, add64, ◌-◌, ◌%◌, suc, arith, ◌+◌, ◌<◌, u64_mod, add64_eq, List, length, ◌∷◌,
  [],
}
use beacon_kit.Exec.{ok, for_each}
use beacon_kit.BeaconDb.{Kv}
use beacon_kit.Collections.{Collections}
use beacon_kit.Processor.{StateProcessor}
use beacon_kit.Processor.Deposits.{
  add_validator_to_registry, apply_deposit, process_deposit, process_deposits,
}
use beacon_kit.Types.{Deposit}
use beacon_kit.Types.Validator.{new_validator_from_deposit}

module _ {c : Collections} (sp : StateProcessor) where
  -- If a deposit adds a validator, the validator stands at the next index with the fields of its
  -- deposit, and is credited twice: AddValidator stores the effective balance as the balance, and
  -- the amount of the deposit is added to that.
  pub new_validator_balance :
      (dep : Deposit) (kv kv' : Kv c)
      → add_validator_to_registry sp dep kv ≡ (ok tt, kv')
      → let effective =
          min
            (dep.amount - dep.amount % sp.cs.effective_balance_increment)
            sp.cs.max_effective_balance in
        (c.get kv'.balances (c.peek kv.validator_index) ≡ some (add64 effective dep.amount))
        × (c.validator kv'.validators (c.peek kv.validator_index)
            ≡ some (
                new_validator_from_deposit dep.pubkey dep.credentials dep.amount
                  sp.cs.effective_balance_increment sp.cs.max_effective_balance))
        × (c.peek kv'.validator_index ≡ suc (c.peek kv.validator_index))
  unfolding add_validator_to_registry
  new_validator_balance dep kv kv' h =
      let k = c.peek kv.validator_index in
      let v =
        new_validator_from_deposit dep.pubkey dep.credentials dep.amount
          sp.cs.effective_balance_increment sp.cs.max_effective_balance in
      let b = v.effective_balance in
      ground (
        arith,
        c.validator-put kv.validators k v kv'.validators k,
        c.index_by_pubkey-put kv.validators k v kv'.validators,
        c.get-put kv.balances k b k,
        c.get-put (c.put kv.balances k b) k (add64 b dep.amount) k,
        c.peek-advance kv.validator_index,
      )

  apply_deposit_index :
      (dep : Deposit) (kv : Kv c)
      → (apply_deposit sp dep kv).1.eth1_deposit_index ≡ kv.eth1_deposit_index
  unfolding apply_deposit
  apply_deposit_index dep kv = ground arith

  process_deposit_index :
      (dep : Deposit) (n : ℕ) (kv : Kv c)
      → c.read kv.eth1_deposit_index ≡ some n
      → n + 1 < u64_mod
      → c.read (process_deposit sp dep kv).1.eth1_deposit_index ≡ some (n + 1)
  unfolding process_deposit
  process_deposit_index dep n kv r l = ground (
    arith,
    add64_eq n 1,
    c.read-write kv.eth1_deposit_index (add64 n 1),
    apply_deposit_index dep
        (record kv { eth1_deposit_index = c.write kv.eth1_deposit_index (add64 n 1) }),
  )

  -- From a state whose deposit index leaves room in a uint64: processing a list of deposits to its
  -- end moves the index by their number.
  pub process_deposits_count :
      (deposits : List Deposit) (n : ℕ) (kv : Kv c)
      → c.read kv.eth1_deposit_index ≡ some n
      → n + length deposits < u64_mod
      → (process_deposits sp deposits kv).0 ≡ ok tt
      → c.read (process_deposits sp deposits kv).1.eth1_deposit_index ≡ some (n + length deposits)
  unfolding process_deposits for_each
  process_deposits_count [] n kv r l h = ground arith
  process_deposits_count (dep ∷ deposits) n kv r l h = ground (
    arith,
    process_deposit_index dep n kv r,
    process_deposits_count deposits (n + 1) (process_deposit sp dep kv).1,
  )
