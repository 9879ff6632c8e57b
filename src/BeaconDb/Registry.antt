-- ===== src/BeaconDb/Registry.antt =====
-- mod/storage/pkg/beacondb/registry.go: the validators and their balances.
use beacon_kit.Prelude.{ℕ, List, [], ◌∷◌, Bytes, length}
use beacon_kit.Exec.{ok, Exec, pure, gets, modify, continue, ◌>>=◌, ◌>>◌}
use beacon_kit.Collections.{Collections}
use beacon_kit.Types.Validator.{Validator}
use beacon_kit.BeaconDb.{Kv, or_not_found}

module _ {c : Collections} where
  -- validators.Set, which writes the three indexes too
  unfoldable pub update_validator_at_index : ℕ → Validator → Exec (Kv c) Unit
  update_validator_at_index index val kv =
      continue (c.put_validator kv.validators index val)
        (λ r kv'. (ok tt, record kv' { validators = r })) kv

  unfoldable pub set_balance : ℕ → ℕ → Exec (Kv c) Unit
  set_balance index balance = modify λ kv. record kv { balances = c.put kv.balances index balance }

  unfoldable pub get_balance : ℕ → Exec (Kv c) ℕ
  get_balance index kv = (or_not_found (c.get kv.balances index), kv)

  -- validatorIndex.Next
  unfoldable pub next_validator_index : Exec (Kv c) ℕ
  next_validator_index kv =
      (ok (c.peek kv.validator_index), record kv { validator_index = c.advance kv.validator_index })

  -- The new validator's balance is its effective balance.
  unfoldable pub add_validator : Validator → Exec (Kv c) Unit
  unfolding next_validator_index update_validator_at_index set_balance
  add_validator val = do
    index ← next_validator_index
    update_validator_at_index index val
    set_balance index val.effective_balance

  unfoldable pub validator_index_by_pubkey : Bytes → Exec (Kv c) ℕ
  validator_index_by_pubkey pubkey kv = (or_not_found (c.index_by_pubkey kv.validators pubkey), kv)

  unfoldable pub validator_by_index : ℕ → Exec (Kv c) Validator
  validator_by_index index kv = (or_not_found (c.validator kv.validators index), kv)

  unfoldable pub get_validators : Exec (Kv c) (List Validator)
  get_validators = gets λ kv. c.validators kv.validators

  unfoldable pub get_total_validators : Exec (Kv c) ℕ
  unfolding get_validators
  get_total_validators = do vals ← get_validators; pure (length vals)

  unfoldable pub get_balances : Exec (Kv c) (List ℕ)
  get_balances = gets λ kv. c.values kv.balances

  -- The loop of GetValidatorsByEffectiveBalance over the index.
  unfoldable pub lookup_all : List ℕ → Exec (Kv c) (List Validator)
  unfolding validator_by_index
  lookup_all [] = pure []
  lookup_all (i ∷ is) = do v ← validator_by_index i; vs ← lookup_all is; pure (v ∷ vs)

  unfoldable pub get_validators_by_effective_balance : Exec (Kv c) (List Validator)
  unfolding lookup_all
  get_validators_by_effective_balance = do
    keys ← gets λ kv. c.by_effective_balance kv.validators
    lookup_all keys
