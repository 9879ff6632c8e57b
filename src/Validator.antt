-- ===== src/Validator.antt =====
-- mod/beacon/validator/propose.go and state.go: the validator service, which builds the block of a
-- slot. Metrics, logging and the wrapping of errors are left out.
pub mod Proposal
pub mod Computed
pub mod Drafts
pub mod Accepted
pub mod Racing
use beacon_kit.Prelude.{
  ℕ, List, [], ◌∷◌, Option, none, some, Bytes, Bool, true, false, if◌then◌else◌, ◌==◌, max, add64,
  sub64,
}
use beacon_kit.Exec.{
  Error, Result, ok, err, Exec, lift, modulo, pure, ◌>>=◌, fork_version_not_supported,
}
use beacon_kit.Types.{
  BeaconBlock, BeaconBlockBody, Context, Deposit, ExecutionPayload, ExecutionPayloadHeader,
  ForkData, ValidatorUpdate, zero_root,
}
use beacon_kit.Chain.{
  ChainSpec, slot_to_epoch, active_fork_version_for_epoch, active_fork_version_for_slot,
  version_deneb,
}
use beacon_kit.Collections.{Collections}
use beacon_kit.BeaconDb.{
  Kv, get_block_root_at_index, get_genesis_validators_root, get_eth1_deposit_index,
  get_latest_execution_payload_header,
}
use beacon_kit.BeaconDb.Registry.{validator_index_by_pubkey}
use beacon_kit.StateDb.{hash_tree_root}
use beacon_kit.Processor.{StateProcessor}
use beacon_kit.Processor.Randao.{compute_randao_signing_root, version_from_uint32}
use beacon_kit.Processor.Slots.{process_slots}
use beacon_kit.Processor.Block.{BeaconState, transition}
use beacon_kit.DepositStore.{get_deposits_by_index}
use beacon_kit.PayloadCache.{Cache}
use beacon_kit.PayloadBuilder.{
  PayloadBuilder, BuilderError, Reply, done, failed, retrieve_payload, request_payload_sync,
  state_error,
}
use beacon_kit.DataAvailability.{Sidecars}
use beacon_kit.DataAvailability.Factory.{SidecarFactory, BlobsBundle, build_sidecars}

-- A payload with its blobs; `none` is a nil bundle, and the payload is of Deneb or of no known type.
pub record Envelope : Type 0 where
  pub execution_payload : ExecutionPayload
  pub is_deneb : Bool
  pub blobs_bundle : Option BlobsBundle

pub data ProposalError : Type 0 where
  nil_payload nil_blobs_bundle nil_deposit_index_start invalid_execution_data : ProposalError
  processing_failed : Error → ProposalError
  builder_failed : BuilderError → ProposalError

pub data Outcome (A : Type 0) : Type 0 where
  produced : A → Outcome A
  refused : ProposalError → Outcome A

-- The fields of the service: `sign` is the signer's, on a signing root.
pub record ValidatorService : Type 0 where
  pub sp : StateProcessor
  pub builder : PayloadBuilder Envelope
  pub factory : SidecarFactory
  pub public_key : Bytes
  pub sign : Bytes → Result Bytes

-- What a request finds around it: the time, whether the wait for a payload is cancelled, and the
-- sidecars whose goroutine reads the block after the state root was set in it.
pub record Surroundings : Type 0 where
  pub now : ℕ
  pub cancelled : Bool
  pub reads_root : ℕ → Bool

-- The context of computeStateRoot.
abbrev pub proposal_context : Context
proposal_context = record {
  optimistic_engine = true;
  skip_payload_verification = true;
  skip_validate_randao = true;
  skip_validate_result = true;
}

-- BeaconBlockHeaderBase, less the state root, which is zero until it is computed.
pub record BeaconBlockHeaderBase : Type 0 where
  pub slot : ℕ
  pub proposer_index : ℕ
  pub parent_block_root : Bytes

-- NewWithVersion: a block whose body is filled in later.
unfoldable pub new_with_version : ℕ → ℕ → Bytes → ℕ → Result BeaconBlockHeaderBase
new_with_version slot proposer_index parent_block_root fork_version =
    if fork_version == version_deneb
    then ok (record {
      slot = slot;
      proposer_index = proposer_index;
      parent_block_root = parent_block_root;
    })
    else err fork_version_not_supported

unfoldable pub with_body : BeaconBlockHeaderBase → BeaconBlockBody → BeaconBlock
with_body base body = record {
  slot = base.slot;
  proposer_index = base.proposer_index;
  parent_block_root = base.parent_block_root;
  state_root = zero_root;
  body = body;
}

-- SetStateRoot
unfoldable pub set_state_root : BeaconBlock → Bytes → BeaconBlock
set_state_root blk root = record blk { state_root = root }

-- The outcome of a call that the service returns at once if it fails.
unfoldable pub after : {A B : Type 0} → Result A → (A → Outcome B) → Outcome B
after (ok a) f = f a
after (err e) f = refused (processing_failed e)

module _ {c : Collections} (vs : ValidatorService) where
  -- buildRandaoReveal
  unfoldable pub build_randao_reveal : ℕ → Exec (Kv c) Bytes
  build_randao_reveal slot = do
    genesis_root ← get_genesis_validators_root
    let epoch = slot_to_epoch vs.sp.cs slot
    let fd : ForkData = record {
      current_version = version_from_uint32 (active_fork_version_for_epoch vs.sp.cs epoch);
      genesis_validators_root = genesis_root;
    }
    root ← lift (compute_randao_signing_root vs.sp fd vs.sp.cs.domain_type_randao epoch)
    lift (vs.sign root)

  -- getEmptyBeaconBlockForSlot
  unfoldable pub get_empty_beacon_block_for_slot : ℕ → Exec (Kv c) BeaconBlockHeaderBase
  get_empty_beacon_block_for_slot slot = do
    parent_place ← lift (modulo (sub64 slot 1) vs.sp.cs.slots_per_historical_root)
    parent_root ← get_block_root_at_index parent_place
    proposer ← validator_index_by_pubkey vs.public_key
    lift (new_with_version slot proposer parent_root (active_fork_version_for_slot vs.sp.cs slot))

  -- retrieveExecutionPayload, when no payload was retrieved: one is requested and awaited.
  unfoldable pub request_payload :
      Surroundings
      → Kv c
      → BeaconBlockHeaderBase
      → Result ExecutionPayloadHeader
      → Cache
      → Reply (Option Envelope) × Cache
  request_payload env kv base (err e) cache = (failed (state_error e), cache)
  request_payload env kv base (ok lph) cache =
      request_payload_sync vs.builder env.cancelled kv base.slot
        (max (add64 env.now 1) (add64 lph.timestamp 1)) base.parent_block_root lph.block_hash
        lph.parent_hash cache

  -- retrieveExecutionPayload, on what RetrievePayload returned.
  unfoldable pub retrieve_execution_payload :
      Surroundings
      → Kv c
      → BeaconBlockHeaderBase
      → Reply Envelope
      → Cache
      → Reply (Option Envelope) × Cache
  retrieve_execution_payload env kv base (done envelope) cache = (done (some envelope), cache)
  retrieve_execution_payload env kv base (failed e) cache =
      request_payload env kv base (get_latest_execution_payload_header kv).0 cache
