-- ===== src/Examples/Proposals.antt =====
-- The theorem on the block that the validator service proposes, applied on the small chain.
use beacon_kit.Prelude.{[], ◌∷◌, ◌≡◌, refl, arith, Bytes, some, true, false, none, sub64, bytes_eq}
use beacon_kit.Exec.{ok, collect, for_each}
use beacon_kit.Example.{example_processor, example_spec, example_kv, example_block, example_context}
use beacon_kit.Examples.Sidecars.{sidecar_factory}
use beacon_kit.Collections.Assoc.{assoc}
use beacon_kit.Types.{zero_root, Context, equals}
use beacon_kit.Processor.Block.{BeaconState, process, process_block, transition, finish, save}
use beacon_kit.PayloadBuilder.{PayloadBuilder, retrieve_payload, retrieved}
use beacon_kit.Validator.{
  ValidatorService, Surroundings, Envelope, build_randao_reveal, get_empty_beacon_block_for_slot,
  new_with_version, retrieve_execution_payload, set_state_root, with_body, after, produced,
}
use beacon_kit.PayloadCache.{get, Cache, set}
use beacon_kit.Validator.Accepted.{proposed_root_accepted}
use beacon_kit.Validator.Proposal.{
  request_block_for_proposal, block_from_base, prepare_block, block_from_payload, seal_block,
  compute_state_root, finish_block,
}
use beacon_kit.Processor.Slots.{process_slots}
use beacon_kit.Exec.Success.{Succeeds}
use beacon_kit.Processor.Header.{process_block_header}
use beacon_kit.BeaconDb.{get_genesis_validators_root, get_block_root_at_index, state_root_at_index}
use beacon_kit.Processor.Payload.{process_execution_payload, validate_execution_payload}
use beacon_kit.Processor.Randao.{
  compute_randao_signing_root, process_randao_reveal, verify_randao_reveal, build_randao_mix,
}
use beacon_kit.Processor.Withdrawals.{process_withdrawals, apply_withdrawals}
use beacon_kit.BeaconDb.Registry.{validator_index_by_pubkey}
use beacon_kit.StateDb.{decrease_balance, hash_tree_root, read_state, new_state}
use beacon_kit.StateDb.Sweep.{expected_withdrawals, sweep, next_withdrawal}
use beacon_kit.Processor.Deposits.{process_operations, process_deposits}
use beacon_kit.Chain.{slot_to_epoch, active_fork_version_for_slot}
use beacon_kit.DataAvailability.Factory.{build_sidecars, build_from}
use beacon_kit.DepositStore.{get_deposits_by_index, deposits_from}

-- The block root of slot 2 is that of the latest header.
abbrev parent : Bytes
parent = 2 ∷ 0 ∷ zero_root

abbrev state : BeaconState assoc
state = record {
  working = record example_kv { block_roots = (0, []) ∷ (1, []) ∷ (2, parent) ∷ (3, []) ∷ [] };
  parent = none;
}

-- A builder whose client has the payload of the small chain.
abbrev builder : PayloadBuilder Envelope
builder = record {
  enabled = true;
  suggested_fee_recipient = 3 ∷ [];
  cs = example_spec;
  client = record {
    has_valid_hashes = λ req. none;
    new_payload = λ req. none;
    forkchoice_updated = λ req. (some (5 ∷ []), none, none);
  };
  get_payload = λ id version. (
    some (record {
      execution_payload = example_block.body.execution_payload;
      is_deneb = true;
      blobs_bundle = some (record { commitments = []; proofs = []; blobs = [] });
    }),
    none,
  );
  has_nil_payload = λ envelope. false;
}

abbrev validator_service : ValidatorService
validator_service = record {
  sp = example_processor;
  builder = builder;
  factory = sidecar_factory;
  public_key = 11 ∷ [];
  sign = λ root. ok (4 ∷ []);
}

abbrev alone : Surroundings
alone = record { now = 20; cancelled = false; reads_root = λ i. false }

abbrev cache : Cache
cache = set [] 3 parent (5 ∷ [])

requested : request_block_for_proposal {c = assoc} validator_service alone [] 3 state cache ≡ (
  produced (example_block, []),
  (request_block_for_proposal {c = assoc} validator_service alone [] 3 state cache).1,
  (request_block_for_proposal {c = assoc} validator_service alone [] 3 state cache).2,
)
unfolding request_block_for_proposal block_from_base prepare_block build_randao_reveal
    get_genesis_validators_root compute_randao_signing_root get_empty_beacon_block_for_slot sub64
    validator_index_by_pubkey new_with_version block_from_payload retrieve_execution_payload
    retrieve_payload retrieved get seal_block compute_state_root transition finish save process
    set_state_root with_body after finish_block build_sidecars build_from get_deposits_by_index
    deposits_from process_slots process_block process_block_header process_execution_payload
    validate_execution_payload process_withdrawals apply_withdrawals decrease_balance
    expected_withdrawals sweep process_randao_reveal process_operations process_deposits
    hash_tree_root read_state collect for_each bytes_eq equals slot_to_epoch verify_randao_reveal
    next_withdrawal build_randao_mix get_block_root_at_index state_root_at_index new_state
    active_fork_version_for_slot set
requested = refl

abbrev unchecked : Context
unchecked = record example_context { skip_validate_result = true }

passes :
    Succeeds
      (process {c = assoc} example_processor unchecked example_block)
      state.working
      []
      (process {c = assoc} example_processor unchecked example_block state.working).1
unfolding process process_slots process_block process_block_header process_execution_payload
    validate_execution_payload process_withdrawals apply_withdrawals decrease_balance
    expected_withdrawals sweep process_randao_reveal process_operations process_deposits
    hash_tree_root read_state collect for_each bytes_eq equals slot_to_epoch verify_randao_reveal
    next_withdrawal build_randao_mix get_block_root_at_index state_root_at_index new_state
    active_fork_version_for_slot
passes = refl

proposed_root_accepted_example :
    Succeeds
      (process {c = assoc} example_processor example_context example_block)
      state.working
      []
      (process {c = assoc} example_processor unchecked example_block state.working).1
proposed_root_accepted_example =
    proposed_root_accepted {c = assoc} validator_service alone [] 3 3 state
      (request_block_for_proposal validator_service alone [] 3 state cache).1 cache
      (request_block_for_proposal validator_service alone [] 3 state cache).2 example_block []
      example_context []
      (process {c = assoc} example_processor unchecked example_block state.working).1 refl
      (omega arith) (omega arith) requested passes
