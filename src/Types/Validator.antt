-- ===== src/Types/Validator.antt =====
-- mod/consensus-types/pkg/types: validator.go and withdrawal_credentials.go.
use beacon_kit.Prelude.{
  ℕ, ◌-◌, ◌%◌, ◌^◌, min, ◌∷◌, ◌++◌, Bool, false, not, ◌&&◌, ◌==◌, ltb, leb, Bytes, get_or, drop,
  replicate, if◌then◌else◌,
}
use beacon_kit.Exec.{Result, ok, err, invalid_withdrawal_credentials}

-- constants.FarFutureEpoch, ^uint64(0)
abbrev pub far_future_epoch : ℕ
far_future_epoch = 2 ^ 64 - 1

-- EthSecp256k1CredentialPrefix
abbrev pub eth1_prefix : ℕ
eth1_prefix = 1

pub record Validator : Type 0 where
  pub pubkey : Bytes
  pub withdrawal_credentials : Bytes
  pub effective_balance : ℕ
  pub slashed : Bool
  pub activation_eligibility_epoch : ℕ
  pub activation_epoch : ℕ
  pub exit_epoch : ℕ
  pub withdrawable_epoch : ℕ

unfoldable pub new_validator_from_deposit : Bytes → Bytes → ℕ → ℕ → ℕ → Validator
new_validator_from_deposit pubkey credentials amount increment max_effective = record {
  pubkey = pubkey;
  withdrawal_credentials = credentials;
  effective_balance = min (amount - amount % increment) max_effective;
  slashed = false;
  activation_eligibility_epoch = far_future_epoch;
  activation_epoch = far_future_epoch;
  exit_epoch = far_future_epoch;
  withdrawable_epoch = far_future_epoch;
}

unfoldable pub is_active : Validator → ℕ → Bool
is_active v epoch = leb v.activation_epoch epoch && ltb epoch v.exit_epoch

unfoldable pub is_eligible_for_activation : Validator → ℕ → Bool
is_eligible_for_activation v finalized_epoch =
    leb v.activation_eligibility_epoch finalized_epoch && v.activation_epoch == far_future_epoch

unfoldable pub is_eligible_for_activation_queue : Validator → ℕ → Bool
is_eligible_for_activation_queue v max_effective =
    v.activation_eligibility_epoch == far_future_epoch && v.effective_balance == max_effective

unfoldable pub is_slashable : Validator → ℕ → Bool
is_slashable v epoch =
    not v.slashed && leb v.activation_epoch epoch && ltb epoch v.withdrawable_epoch

unfoldable pub has_eth1_withdrawal_credentials : Validator → Bool
has_eth1_withdrawal_credentials v = get_or v.withdrawal_credentials 0 0 == eth1_prefix

unfoldable pub has_max_effective_balance : Validator → ℕ → Bool
has_max_effective_balance v max_effective = v.effective_balance == max_effective

unfoldable pub is_fully_withdrawable : Validator → ℕ → ℕ → Bool
unfolding has_eth1_withdrawal_credentials
is_fully_withdrawable v balance epoch =
    has_eth1_withdrawal_credentials v && leb v.withdrawable_epoch epoch && ltb 0 balance

unfoldable pub is_partially_withdrawable : Validator → ℕ → ℕ → Bool
unfolding has_eth1_withdrawal_credentials has_max_effective_balance
is_partially_withdrawable v balance max_effective =
    has_eth1_withdrawal_credentials v
    && has_max_effective_balance v max_effective
    && ltb max_effective balance

-- The credential of an execution address: the prefix, eleven zero bytes, the address.
unfoldable pub new_credentials_from_execution_address : Bytes → Bytes
new_credentials_from_execution_address address = eth1_prefix ∷ (replicate 11 0 ++ address)

unfoldable pub to_execution_address : Bytes → Result Bytes
to_execution_address credentials =
    if get_or credentials 0 0 == eth1_prefix
    then ok (drop 12 credentials)
    else err invalid_withdrawal_credentials
