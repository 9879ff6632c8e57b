-- ===== src/Processor.antt =====
-- mod/state-transition/pkg/core: the state processor. This file has the processor's environment;
-- the modules below have its steps, one for each source file, and what is proved of them.
pub mod Header
pub mod Randao
pub mod Payload
pub mod Deposits
pub mod Withdrawals
pub mod Epoch
pub mod Slots
pub mod Block
pub mod Genesis
use beacon_kit.Prelude.{ℕ, List, Bytes, Bool}
use beacon_kit.Exec.{Result}
use beacon_kit.Chain.{ChainSpec}
use beacon_kit.Types.{
  BeaconBlockHeader, BeaconBlockBody, ForkData, SigningData, DepositMessage, ExecutionPayload,
  ExecutionPayloadHeader, NewPayloadRequest, ValidatorUpdate,
}
use beacon_kit.Types.Validator.{Validator}
use beacon_kit.StateDb.{StateView}

-- The fields of StateProcessor, and what its methods call that this library does not define: the
-- generated SSZ roots, SHA-256, xor.Bytes, iter.MapErr. `header_first` tells which of the two
-- goroutines of processExecutionPayload fails first, when both fail.
pub record StateProcessor : Type 0 where
  pub cs : ChainSpec
  pub verify_signature : Bytes → Bytes → Bytes → Result Unit
  pub verify_and_notify_new_payload : NewPayloadRequest → Result Unit
  pub payload_to_header : ExecutionPayload → Result ExecutionPayloadHeader
  pub header_root : BeaconBlockHeader → Result Bytes
  pub body_root : BeaconBlockBody → Result Bytes
  pub empty_body_root : ℕ → Result Bytes
  pub state_root : StateView → Result Bytes
  pub fork_data_root : ForkData → Result Bytes
  pub signing_data_root : SigningData → Result Bytes
  pub deposit_message_root : DepositMessage → Result Bytes
  pub validators_root : List Validator → Result Bytes
  pub sha256 : Bytes → Bytes
  -- xor.Bytes(dst, a, b): what it leaves in dst, and the number of bytes written
  pub xor_bytes : Bytes → Bytes → Bytes × ℕ
  pub map_err :
      (Validator → Result ValidatorUpdate) → List Validator → Result (List ValidatorUpdate)
  pub header_first : Bool
