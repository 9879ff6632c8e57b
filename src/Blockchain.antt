-- ===== src/Blockchain.antt =====
-- mod/beacon/blockchain/receive.go and process.go, with the handler of proposals in
-- mod/runtime/pkg/runtime/middleware/validator.go that calls them, and JoinFatal and IsFatal of
-- mod/errors/mod.go. Logging and metrics are left out.
pub mod Proposals
pub mod Finalized
pub mod Building
use beacon_kit.Prelude.{
  ℕ, List, [], ◌∷◌, ◌++◌, Option, none, some, Bytes, Bool, true, false, if◌then◌else◌, not, ◌||◌,
  ◌&&◌,
}
use beacon_kit.Exec.{Error, Result, ok, err, nil_blk, data_not_available}
use beacon_kit.Types.{BeaconBlock, Context, ValidatorUpdate}
use beacon_kit.Collections.{Collections}
use beacon_kit.BeaconDb.{Kv}
use beacon_kit.Processor.{StateProcessor}
use beacon_kit.Processor.Block.{BeaconState, copy, transition}
use beacon_kit.RangeDb.{Files, RangeDb}
use beacon_kit.DataAvailability.{
  Sidecars, BlobVerifier, processor_verify_blobs, persist, is_data_available,
}

-- An error of the two verifications: one as it comes, or one under WrapNonFatal.
pub data ReceiveError : Type 0 where
  plain : Error → ReceiveError
  non_fatal : Error → ReceiveError

-- DetailedError, with the errors that are joined in it; none of them is a nil error inside.
pub record DetailedError : Type 0 where
  pub errors : List ReceiveError
  pub fatal : Bool

-- IsFatal, on a nil error, on one that is no DetailedError, and on one that is.
unfoldable pub is_fatal_error : Option ReceiveError → Bool
is_fatal_error none = false
is_fatal_error (some (plain e)) = true
is_fatal_error (some (non_fatal e)) = false

unfoldable pub is_fatal : DetailedError → Bool
is_fatal d = elim (d.errors) [ [] ↦ false | e ∷ es ↦ d.fatal ]

-- errors.Join keeps the errors that are not nil.
unfoldable pub joined : Option ReceiveError → List ReceiveError → List ReceiveError
joined none es = es
joined (some e) es = e ∷ es

-- JoinFatal, on two errors. It wraps the joined error also when there is none.
unfoldable pub join_fatal : Option ReceiveError → Option ReceiveError → DetailedError
unfolding joined is_fatal_error
join_fatal e1 e2 = record {
  errors = joined e1 (joined e2 []);
  fatal = is_fatal_error e1 || is_fatal_error e2;
}

-- What the service starts beside the verification: the forkchoice update at startup, the rebuilding
-- of a payload after a rejected block, and the payload on top of an accepted one.
pub data Task (c : Collections) : Type 0 where
  force_startup_head : Kv c → Task c
  rebuild_payload : Kv c → Task c
  build_optimistic_payload : Kv c → BeaconBlock → Task c

-- The fields of the service. `is_accepted_status` is errors.Is(_, ErrAcceptedPayloadStatus);
-- `block_error_first` tells which goroutine of ProcessBlockAndBlobs fails first, when both fail.
pub record Service : Type 0 where
  pub sp : StateProcessor
  pub verifier : BlobVerifier
  pub is_accepted_status : Error → Bool
  pub optimistic_payload_builds : Bool
  pub builder_enabled : Bool
  pub block_error_first : Bool

-- The contexts of verifyStateRoot and of processBeaconBlock.
abbrev pub verify_context : Context
verify_context = record {
  optimistic_engine = false;
  skip_payload_verification = false;
  skip_validate_randao = false;
  skip_validate_result = false;
}

abbrev pub finalize_context : Context
finalize_context = record {
  optimistic_engine = true;
  skip_payload_verification = false;
  skip_validate_randao = false;
  skip_validate_result = false;
}

-- What VerifyIncomingBlock leaves: its error, the state it was given, and what it started.
pub record Verified (c : Collections) : Type 0 where
  pub error : Option ReceiveError
  pub pre_state : BeaconState c
  pub tasks : List (Task c)

-- What verifyStateRoot makes of the error of Transition.
unfoldable pub state_root_verdict : Service → Result (List ValidatorUpdate) → Option Error
state_root_verdict svc (ok updates) = none
state_root_verdict svc (err e) = if svc.is_accepted_status e then none else some e

-- shouldBuildOptimisticPayloads
unfoldable pub should_build_optimistic_payloads : Service → Bool
should_build_optimistic_payloads svc = svc.optimistic_payload_builds && svc.builder_enabled

-- The error of a call as the service reports it.
unfoldable pub plain_error : Result Unit → Option ReceiveError
plain_error (ok u) = none
plain_error (err e) = some (plain e)

-- VerifyIncomingBlobs; `none` is a nil block, or nil sidecars.
unfoldable pub verify_incoming_blobs :
    Service → Option BeaconBlock → Option Sidecars → Option ReceiveError
unfolding processor_verify_blobs plain_error
verify_incoming_blobs svc none sidecars = some (non_fatal nil_blk)
verify_incoming_blobs svc (some blk) none = none
verify_incoming_blobs svc (some blk) (some []) = none
verify_incoming_blobs svc (some blk) (some (sc ∷ scs)) =
    plain_error (processor_verify_blobs svc.verifier svc.sp.cs blk.slot (sc ∷ scs))

module _ {c : Collections} (svc : Service) where
  -- The store that a copy writes to when it is saved is that of the state it was made from.
  unfoldable pub flushed : BeaconState c → BeaconState c → BeaconState c
  flushed pre post = elim (post.parent) [ none ↦ pre | some kv ↦ record pre { working = kv } ]

  unfoldable pub verified_block :
      BeaconState c → BeaconBlock → List (Task c) → Option Error → BeaconState c → Verified c
  unfolding flushed should_build_optimistic_payloads
  verified_block pre blk startup (some e) post = record {
    error = some (plain e);
    pre_state = flushed pre post;
    tasks =
        startup
        ++ (if should_build_optimistic_payloads svc
            then rebuild_payload (flushed pre post).working ∷ []
            else []);
  }
  verified_block pre blk startup none post = record {
    error = none;
    pre_state = flushed pre post;
    tasks =
        startup
        ++ (if should_build_optimistic_payloads svc
            then build_optimistic_payload post.working blk ∷ []
            else []);
  }

  -- VerifyIncomingBlock; `forced` says that forceStartupSyncOnce was done before.
  unfoldable pub verify_incoming_block : Bool → BeaconState c → Option BeaconBlock → Verified c
  unfolding verified_block state_root_verdict
  verify_incoming_block forced pre none = record {
    error = some (non_fatal nil_blk);
    pre_state = pre;
    tasks = if forced then [] else force_startup_head pre.working ∷ [];
  }
  verify_incoming_block forced pre (some blk) =
      let (r, post) = transition svc.sp verify_context (copy pre) (some blk) in
      verified_block pre blk (if forced then [] else force_startup_head pre.working ∷ [])
        (state_root_verdict svc r) post

  -- ReceiveBlockAndBlobs, which waits for both verifications.
  unfoldable pub receive_block_and_blobs :
      Bool → BeaconState c → Option BeaconBlock → Option Sidecars → DetailedError
  unfolding verify_incoming_block verify_incoming_blobs join_fatal
  receive_block_and_blobs forced pre blk sidecars =
      join_fatal (verify_incoming_block forced pre blk).error
        (verify_incoming_blobs svc blk sidecars)

  -- ProcessProposalHandler, for what the gossipers found in the request: whether it accepts.
  unfoldable pub process_proposal :
      Bool → BeaconState c → Option BeaconBlock → Option Sidecars → Bool
  unfolding receive_block_and_blobs is_fatal
  process_proposal forced pre blk sidecars =
      not (is_fatal (receive_block_and_blobs forced pre blk sidecars))

module _ {f : Files} (svc : Service) where
  -- ProcessBlockAndBlobs after its goroutines have ended: their results, and the store.
  unfoldable pub finalized :
      BeaconBlock
      → Result (List ValidatorUpdate)
      → Result Unit
      → RangeDb f
      → Result (List ValidatorUpdate)
  unfolding is_data_available
  finalized blk (ok updates) (ok u) db =
      if not (is_data_available db blk.slot blk.body.blob_kzg_commitments)
      then err data_not_available
      else ok updates
  finalized blk (ok updates) (err e) db = err e
  finalized blk (err e) (ok u) db = err e
  finalized blk (err e) (err e') db = if svc.block_error_first then err e else err e'

module _ {c : Collections} {f : Files} (svc : Service) where
  -- ProcessBlockAndBlobs, up to the forkchoice update that it starts at its end.
  unfoldable pub process_block_and_blobs :
      Option BeaconBlock
      → Option Sidecars
      → BeaconState c × RangeDb f
      → Result (List ValidatorUpdate) × BeaconState c × RangeDb f
  unfolding finalized
  process_block_and_blobs none sidecars (st, db) = (err nil_blk, st, db)
  process_block_and_blobs (some blk) sidecars (st, db) =
      let (r, st') = transition svc.sp finalize_context st (some blk) in
      let (stored, db') = persist svc.verifier svc.sp.cs blk.slot sidecars db in
      (finalized svc blk r stored db', st', db')
