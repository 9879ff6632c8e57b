-- ===== src/Examples/Genesis.antt =====
-- The theorems on genesis, applied on the small chain.
use beacon_kit.Prelude.{◌∷◌, [], ◌≡◌, some, refl, arith, List, replicate, ◌++◌, bytes_eq}
use beacon_kit.Types.{Deposit, ExecutionPayloadHeader}
use beacon_kit.Collections.Assoc.{assoc}
use beacon_kit.Example.{example_processor, example_kv}
use beacon_kit.Processor.Genesis.{
  initialize, version_to_uint32, prepare, conclude, prime_mixes, prime_roots, empty_root,
  from_little_endian,
}
use beacon_kit.Processor.Deposits.{process_deposits, process_deposit, apply_deposit}
use beacon_kit.Exec.{for_each}
use beacon_kit.Processor.Epoch.{process_sync_committee_updates}
use beacon_kit.BeaconDb.Registry.{get_validators_by_effective_balance, lookup_all}
use beacon_kit.Processor.Genesis.State.{initialize_sets}

abbrev genesis_deposits : List Deposit
genesis_deposits =
    record {
      pubkey = 12 ∷ [];
      credentials = 1 ∷ (replicate 11 0 ++ 12 ∷ []);
      amount = 10;
      signature = [];
      index = 0;
    }
    ∷ []

abbrev genesis_payload : ExecutionPayloadHeader
genesis_payload = record { version = 4; parent_hash = []; timestamp = 1; block_hash = 3 ∷ [] }

initialize_sets_example :
    assoc.read
      (initialize {c = assoc} example_processor genesis_deposits genesis_payload
        (4 ∷ 0 ∷ 0 ∷ 0 ∷ [])
        example_kv).1.slot
    ≡ some 0
unfolding initialize prepare conclude prime_mixes prime_roots empty_root process_deposits
    process_deposit for_each apply_deposit bytes_eq from_little_endian version_to_uint32
    process_sync_committee_updates get_validators_by_effective_balance lookup_all
initialize_sets_example =
    (initialize_sets example_processor genesis_deposits genesis_payload (4 ∷ 0 ∷ 0 ∷ 0 ∷ [])
      example_kv
      (initialize {c = assoc} example_processor genesis_deposits genesis_payload
        (4 ∷ 0 ∷ 0 ∷ 0 ∷ []) example_kv).1
      _ (omega arith) refl 0).0
