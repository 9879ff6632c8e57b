-- ===== src/Processor/Randao.antt =====
-- state_processor_randao.go, with ForkData of consensus-types and the signing roots of
-- primitives/pkg/ssz/signing_data.go that it verifies against.
pub mod Mixes
use beacon_kit.Prelude.{
  ℕ, zero, suc, ◌/◌, ◌%◌, ◌==◌, [], ◌∷◌, ◌++◌, Bytes, Bool, not, if◌then◌else◌, take, replicate,
  add64,
}
use beacon_kit.Exec.{Result, ok, err, bind_result, Exec, pure, lift, ◌>>=◌, ◌>>◌, xor_invalid}
use beacon_kit.Chain.{slot_to_epoch, active_fork_version_for_epoch}
use beacon_kit.Collections.{Collections}
use beacon_kit.Types.{BeaconBlock, ForkData}
use beacon_kit.BeaconDb.{
  Kv, get_slot, get_genesis_validators_root, get_randao_mix_at_index, update_randao_mix_at_index,
}
use beacon_kit.BeaconDb.Registry.{validator_by_index}
use beacon_kit.Processor.{StateProcessor}

-- binary.LittleEndian.PutUint32 and PutUint64: the low `n` bytes of a number.
unfoldable pub little_endian : ℕ → ℕ → Bytes
little_endian zero x = []
little_endian (suc n) x = (x % 256) ∷ little_endian n (x / 256)

-- version.FromUint32
unfoldable pub version_from_uint32 : ℕ → Bytes
unfolding little_endian
version_from_uint32 v = little_endian 4 v

-- ForkData.ComputeDomain
unfoldable pub compute_domain : StateProcessor → ForkData → Bytes → Result Bytes
compute_domain sp fd domain_type =
    bind_result (sp.fork_data_root fd) λ root. ok (domain_type ++ take 28 root)

-- ComputeSigningRootUInt64: the number in the low bytes of a root.
unfoldable pub compute_signing_root_uint64 : StateProcessor → ℕ → Bytes → Result Bytes
unfolding little_endian
compute_signing_root_uint64 sp value domain =
    sp.signing_data_root
      (record { object_root = little_endian 8 value ++ replicate 24 0; domain = domain })

-- ForkData.ComputeRandaoSigningRoot; the wrapping of its error is not kept.
unfoldable pub compute_randao_signing_root : StateProcessor → ForkData → Bytes → ℕ → Result Bytes
unfolding compute_domain compute_signing_root_uint64
compute_randao_signing_root sp fd domain_type epoch =
    bind_result (compute_domain sp fd domain_type)
      λ domain. compute_signing_root_uint64 sp epoch domain

unfoldable pub build_randao_mix : StateProcessor → Bytes → Bytes → Result Bytes
build_randao_mix sp mix reveal =
    let (new_mix, written) = sp.xor_bytes mix (sp.sha256 reveal) in
    if not (written == 32) then err xor_invalid else ok new_mix

module _ {c : Collections} (sp : StateProcessor) where
  -- the branch under !skipVerification
  unfoldable pub verify_randao_reveal : BeaconBlock → ForkData → ℕ → Bytes → Exec (Kv c) Unit
  unfolding compute_randao_signing_root
  verify_randao_reveal blk fd epoch pubkey = do
    root ← lift (compute_randao_signing_root sp fd sp.cs.domain_type_randao epoch)
    lift (sp.verify_signature pubkey root blk.body.randao_reveal)

  unfoldable pub process_randao_reveal : BeaconBlock → Bool → Exec (Kv c) Unit
  unfolding get_slot validator_by_index get_genesis_validators_root get_randao_mix_at_index
      update_randao_mix_at_index slot_to_epoch
  process_randao_reveal blk skip_verification = do
    slot ← get_slot
    proposer ← validator_by_index blk.proposer_index
    genesis_root ← get_genesis_validators_root
    let epoch = slot_to_epoch sp.cs slot
    let fd : ForkData = record {
      current_version = version_from_uint32 (active_fork_version_for_epoch sp.cs epoch);
      genesis_validators_root = genesis_root;
    }
    (if skip_verification then pure tt else verify_randao_reveal blk fd epoch proposer.pubkey)
    prev_mix ← get_randao_mix_at_index (epoch % sp.cs.epochs_per_historical_vector)
    mix ← lift (build_randao_mix sp prev_mix blk.body.randao_reveal)
    update_randao_mix_at_index (epoch % sp.cs.epochs_per_historical_vector) mix

  unfoldable pub process_randao_mixes_reset : Exec (Kv c) Unit
  unfolding get_slot get_randao_mix_at_index update_randao_mix_at_index slot_to_epoch add64
  process_randao_mixes_reset = do
    slot ← get_slot
    let epoch = slot_to_epoch sp.cs slot
    mix ← get_randao_mix_at_index (epoch % sp.cs.epochs_per_historical_vector)
    update_randao_mix_at_index (add64 epoch 1 % sp.cs.epochs_per_historical_vector) mix
