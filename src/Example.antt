-- ===== src/Example.antt =====
-- A small chain on which the theorems are applied and the definitions are run: two slots to an
-- epoch, a registry of two validators, and stand-ins for the hashes, the signer and the engine.
use beacon_kit.Prelude.{ℕ, suc, ◌<◌, arith, List, [], ◌∷◌, ◌++◌, map, none, some, false, replicate}
use beacon_kit.Exec.{ok}
use beacon_kit.Chain.{ChainSpec}
use beacon_kit.Collections.Assoc.{assoc}
use beacon_kit.Processor.{StateProcessor}
use beacon_kit.Types.Validator.{Validator, far_future_epoch}
use beacon_kit.Types.{BeaconBlockHeader, Withdrawal, BeaconBlock, Context, zero_root}
use beacon_kit.BeaconDb.{Kv}
use beacon_kit.Processor.Block.{BeaconState}

pub positive : (n : ℕ) → 0 < suc n
positive n = omega arith

abbrev pub example_spec : ChainSpec
example_spec = record {
  max_effective_balance = 32;
  effective_balance_increment = 4;
  slots_per_epoch = 2;
  target_seconds_per_eth1_block = 2;
  slots_per_historical_root = 4;
  domain_type_randao = 2 ∷ 0 ∷ 0 ∷ 0 ∷ [];
  domain_type_deposit = 3 ∷ 0 ∷ 0 ∷ 0 ∷ [];
  max_deposits_per_block = 2;
  electra_fork_epoch = 1000;
  epochs_per_historical_vector = 3;
  epochs_per_slashings_vector = 3;
  historical_roots_limit = 4;
  proportional_slashing_multiplier = 1;
  max_withdrawals_per_payload = 2;
  max_validators_per_withdrawals_sweep = 2;
  min_epochs_for_blobs_sidecars_request = 4;
  max_blob_commitments_per_block = 16;
  max_blobs_per_block = 6;
  effective_balance_increment_positive = positive 3;
  slots_per_epoch_positive = positive 1;
  epochs_per_historical_vector_positive = positive 2;
  epochs_per_slashings_vector_positive = positive 2;
}

-- Every signature and payload is accepted; a root names what it is the root of.
abbrev pub example_processor : StateProcessor
example_processor = record {
  cs = example_spec;
  verify_signature = λ pubkey message signature. ok tt;
  verify_and_notify_new_payload = λ request. ok tt;
  payload_to_header = λ p. ok (record {
    version = 4;
    parent_hash = p.parent_hash;
    timestamp = p.timestamp;
    block_hash = p.block_hash;
  });
  header_root = λ h. ok (h.slot ∷ h.proposer_index ∷ h.state_root);
  body_root = λ b. ok (7 ∷ b.randao_reveal);
  empty_body_root = λ v. ok (8 ∷ []);
  state_root = λ s. ok (9 ∷ s.slot ∷ s.balances);
  fork_data_root = λ fd. ok (fd.current_version ++ fd.genesis_validators_root);
  signing_data_root = λ d. ok (d.object_root ++ d.domain);
  deposit_message_root = λ m. ok (m.amount ∷ m.pubkey);
  validators_root = λ vs. ok (map (λ v. v.effective_balance) vs);
  sha256 = λ b. b;
  xor_bytes = λ a b. (b, 32);
  map_err = λ f vs.
      ok (map (λ v. record { pubkey = v.pubkey; effective_balance = v.effective_balance }) vs);
  header_first = false;
}

-- A validator at the maximum effective balance, with an execution address for credentials.
abbrev pub example_validator : ℕ → Validator
example_validator key = record {
  pubkey = key ∷ [];
  withdrawal_credentials = 1 ∷ (replicate 11 0 ++ key ∷ []);
  effective_balance = 32;
  slashed = false;
  activation_eligibility_epoch = 0;
  activation_epoch = 0;
  exit_epoch = far_future_epoch;
  withdrawable_epoch = far_future_epoch;
}

abbrev pub example_header : BeaconBlockHeader
example_header = record {
  slot = 2;
  proposer_index = 0;
  parent_block_root = [];
  state_root = zero_root;
  body_root = [];
}

-- The state of slot 3, with the balances 40 and 32.
abbrev pub example_kv : Kv assoc
example_kv = record {
  genesis_validators_root = some zero_root;
  slot = some 3;
  fork = some (record { previous_version = []; current_version = []; epoch = 0 });
  latest_block_header = some example_header;
  block_roots = (0, []) ∷ (1, []) ∷ (2, []) ∷ (3, []) ∷ [];
  state_roots = (0, []) ∷ (1, []) ∷ (2, []) ∷ (3, []) ∷ [];
  eth1_data = some (record { deposit_root = []; deposit_count = 0; block_hash = [] });
  eth1_deposit_index = some 5;
  latest_execution_payload_version = some 4;
  latest_execution_payload_header =
      some (record { version = 4; parent_hash = []; timestamp = 20; block_hash = 1 ∷ [] });
  validator_index = 2;
  validators = (0, example_validator 10) ∷ (1, example_validator 11) ∷ [];
  balances = (0, 40) ∷ (1, 32) ∷ [];
  next_withdrawal_index = some 6;
  next_withdrawal_validator_index = some 0;
  randao_mix = (0, 5 ∷ []) ∷ (1, 6 ∷ []) ∷ (2, 7 ∷ []) ∷ [];
  slashings = (0, 3) ∷ (2, 4) ∷ [];
  total_slashing = some 7;
}

abbrev pub example_state : BeaconState assoc
example_state = record { working = example_kv; parent = none }

abbrev pub example_withdrawals : List Withdrawal
example_withdrawals =
    record { index = 6; validator = 0; address = 10 ∷ []; amount = 8 }
    ∷ record { index = 7; validator = 1; address = 11 ∷ []; amount = 0 }
    ∷ []

-- A block of slot 3 that the state accepts.
abbrev pub example_block : BeaconBlock
example_block = record {
  slot = 3;
  proposer_index = 1;
  parent_block_root = 2 ∷ 0 ∷ zero_root;
  state_root = 9 ∷ 3 ∷ 32 ∷ 32 ∷ [];
  body = record {
    randao_reveal = 4 ∷ [];
    deposits = [];
    execution_payload = record {
      parent_hash = 1 ∷ [];
      prev_randao = 6 ∷ [];
      timestamp = 21;
      block_hash = 2 ∷ [];
      withdrawals = example_withdrawals;
    };
    blob_kzg_commitments = [];
  };
}

abbrev pub example_context : Context
example_context = record {
  optimistic_engine = false;
  skip_payload_verification = false;
  skip_validate_randao = false;
  skip_validate_result = false;
}
