-- ===== src/Types.antt =====
-- mod/consensus-types/pkg/types, mod/engine-primitives and mod/primitives/pkg/transition: the data
-- that the state transition reads and writes. SSZ and JSON methods of these types are not here.
pub mod Validator
use beacon_kit.Prelude.{ℕ, List, Bool, Bytes, ◌&&◌, ◌==◌, bytes_eq, Option, replicate}

-- primitives.Root{}
abbrev pub zero_root : Bytes
zero_root = replicate 32 0

pub record BeaconBlockHeader : Type 0 where
  pub slot : ℕ
  pub proposer_index : ℕ
  pub parent_block_root : Bytes
  pub state_root : Bytes
  pub body_root : Bytes

pub record Eth1Data : Type 0 where
  pub deposit_root : Bytes
  pub deposit_count : ℕ
  pub block_hash : Bytes

-- Versions are the four-byte arrays of version.FromUint32.
pub record Fork : Type 0 where
  pub previous_version : Bytes
  pub current_version : Bytes
  pub epoch : ℕ

pub record ForkData : Type 0 where
  pub current_version : Bytes
  pub genesis_validators_root : Bytes

pub record SigningData : Type 0 where
  pub object_root : Bytes
  pub domain : Bytes

pub record Deposit : Type 0 where
  pub pubkey : Bytes
  pub credentials : Bytes
  pub amount : ℕ
  pub signature : Bytes
  pub index : ℕ

pub record DepositMessage : Type 0 where
  pub pubkey : Bytes
  pub credentials : Bytes
  pub amount : ℕ

pub record Withdrawal : Type 0 where
  pub index : ℕ
  pub validator : ℕ
  pub address : Bytes
  pub amount : ℕ

-- Withdrawal.Equals
unfoldable pub equals : Withdrawal → Withdrawal → Bool
unfolding bytes_eq
equals w other =
    w.index == other.index
    && w.validator == other.validator
    && bytes_eq w.address other.address
    && w.amount == other.amount

-- The execution payload, by what the state transition reads of it.
pub record ExecutionPayload : Type 0 where
  pub parent_hash : Bytes
  pub prev_randao : Bytes
  pub timestamp : ℕ
  pub block_hash : Bytes
  pub withdrawals : List Withdrawal

pub record ExecutionPayloadHeader : Type 0 where
  pub version : ℕ
  pub parent_hash : Bytes
  pub timestamp : ℕ
  pub block_hash : Bytes

pub record BeaconBlockBody : Type 0 where
  pub randao_reveal : Bytes
  pub deposits : List Deposit
  pub execution_payload : ExecutionPayload
  pub blob_kzg_commitments : List Bytes

pub record BeaconBlock : Type 0 where
  pub slot : ℕ
  pub proposer_index : ℕ
  pub parent_block_root : Bytes
  pub state_root : Bytes
  pub body : BeaconBlockBody

-- transition.Context
pub record Context : Type 0 where
  pub optimistic_engine : Bool
  pub skip_payload_verification : Bool
  pub skip_validate_randao : Bool
  pub skip_validate_result : Bool

-- transition.ValidatorUpdate
pub record ValidatorUpdate : Type 0 where
  pub pubkey : Bytes
  pub effective_balance : ℕ

-- engineprimitives.BuildNewPayloadRequest
pub record NewPayloadRequest : Type 0 where
  pub execution_payload : ExecutionPayload
  pub versioned_hashes : List Bytes
  pub parent_beacon_block_root : Bytes
  pub optimistic : Bool
