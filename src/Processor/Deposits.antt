-- ===== src/Processor/Deposits.antt =====
-- The deposits of state_processor_staking.go, and the signature check of deposit_message.go.
pub mod Registry
use beacon_kit.Prelude.{ℕ, min, List, add64}
use beacon_kit.Exec.{
  Result, ok, err, deposit_message, bind_result, map_error, Exec, lift, ◌>>=◌, ◌>>◌, for_each,
}
use beacon_kit.Chain.{slot_to_epoch, active_fork_version_for_epoch}
use beacon_kit.Collections.{Collections}
use beacon_kit.Types.{Deposit, ForkData, BeaconBlock}
use beacon_kit.Types.Validator.{new_validator_from_deposit}
use beacon_kit.BeaconDb.{
  Kv, get_slot, get_genesis_validators_root, get_eth1_deposit_index, set_eth1_deposit_index,
  get_eth1_data,
}
use beacon_kit.BeaconDb.Registry.{
  validator_by_index, validator_index_by_pubkey, update_validator_at_index, add_validator,
}
use beacon_kit.StateDb.{increase_balance}
use beacon_kit.Processor.{StateProcessor}
use beacon_kit.Processor.Randao.{compute_domain, version_from_uint32}

-- Deposit.VerifySignature and DepositMessage.VerifyCreateValidator.
unfoldable pub verify_deposit : StateProcessor → ForkData → Deposit → Result Unit
unfolding compute_domain
verify_deposit sp fd dep = bind_result (compute_domain sp fd sp.cs.domain_type_deposit) λ domain.
    bind_result
      (sp.deposit_message_root
        (record { pubkey = dep.pubkey; credentials = dep.credentials; amount = dep.amount }))
      λ object_root.
        bind_result (sp.signing_data_root (record { object_root = object_root; domain = domain }))
          λ root. map_error deposit_message (sp.verify_signature dep.pubkey root dep.signature)

module _ {c : Collections} (sp : StateProcessor) where
  unfoldable pub add_validator_to_registry : Deposit → Exec (Kv c) Unit
  unfolding add_validator validator_index_by_pubkey increase_balance new_validator_from_deposit
  add_validator_to_registry dep = do
    add_validator (
        new_validator_from_deposit dep.pubkey dep.credentials dep.amount
          sp.cs.effective_balance_increment sp.cs.max_effective_balance)
    idx ← validator_index_by_pubkey dep.pubkey
    increase_balance idx dep.amount

  unfoldable pub create_validator : Deposit → Exec (Kv c) Unit
  unfolding get_genesis_validators_root get_slot verify_deposit add_validator_to_registry
      slot_to_epoch version_from_uint32 active_fork_version_for_epoch
  create_validator dep = do
    genesis_root ← get_genesis_validators_root
    slot ← get_slot
    lift (
        verify_deposit sp
          (record {
            current_version =
                version_from_uint32
                  (active_fork_version_for_epoch sp.cs (slot_to_epoch sp.cs slot));
            genesis_validators_root = genesis_root;
          })
          dep)
    add_validator_to_registry dep

  -- A deposit to a validator that is in the registry.
  unfoldable pub top_up : Deposit → ℕ → Exec (Kv c) Unit
  unfolding validator_by_index update_validator_at_index add64
  top_up dep idx = do
    v ← validator_by_index idx
    update_validator_at_index idx (record v {
      effective_balance = min (add64 v.effective_balance dep.amount) sp.cs.max_effective_balance;
    })

  -- Any error of the lookup sends the deposit to createValidator.
  unfoldable pub apply_deposit : Deposit → Exec (Kv c) Unit
  unfolding validator_index_by_pubkey top_up create_validator
  apply_deposit dep kv = elim ((validator_index_by_pubkey dep.pubkey kv).0) [
    | ok idx ↦ top_up dep idx kv
    | err e ↦ create_validator dep kv
  ]

  unfoldable pub process_deposit : Deposit → Exec (Kv c) Unit
  unfolding get_eth1_deposit_index set_eth1_deposit_index add64
  process_deposit dep = do
    index ← get_eth1_deposit_index
    set_eth1_deposit_index (add64 index 1)
    apply_deposit dep

  unfoldable pub process_deposits : List Deposit → Exec (Kv c) Unit
  process_deposits deposits = for_each process_deposit deposits

  -- The expected number of deposits is computed and not used.
  unfoldable pub process_operations : BeaconBlock → Exec (Kv c) Unit
  unfolding get_eth1_deposit_index get_eth1_data
  process_operations blk = do
    index ← get_eth1_deposit_index
    eth1 ← get_eth1_data
    process_deposits blk.body.deposits
