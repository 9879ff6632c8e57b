-- ===== src/Processor/Randao/Mixes.antt =====
-- The mixes that the randao steps write.
use beacon_kit.Exec.{ok}
use beacon_kit.Collections.{Collections}
use beacon_kit.Processor.{StateProcessor, ℕ, Validator}
use beacon_kit.BeaconDb.{Kv}
use beacon_kit.Prelude.{
  ◌≡◌, some, Bytes, ◌%◌, ◌<◌, u64_mod, ◌-◌, Bool, true, ◌⊎◌, if◌then◌else◌, ◌+◌, ◌==◌, arith,
  add64_eq, add64,
}
use beacon_kit.Chain.{slot_to_epoch, active_fork_version_for_epoch}
use beacon_kit.Processor.Randao.{
  process_randao_mixes_reset, process_randao_reveal, verify_randao_reveal, build_randao_mix,
  BeaconBlock, compute_randao_signing_root, version_from_uint32,
}
use beacon_kit.Chain.Epochs.{slot_to_epoch_le}

module _ {c : Collections} (sp : StateProcessor) (kv : Kv c) (s : ℕ)
    (slot : c.read kv.slot ≡ some s) (prev : Bytes)
    (mixed : c.get kv.randao_mix (slot_to_epoch sp.cs s % sp.cs.epochs_per_historical_vector)
      ≡ some prev) where
  -- On a state with a slot below the largest uint64 and a mix at the place of its epoch: the reset
  -- succeeds, copies that mix to the place of the next epoch, and leaves the other places.
  randao_mixes_reset_copies :
      s < u64_mod - 1
      → (j : ℕ)
      → ((process_randao_mixes_reset sp kv).0 ≡ ok tt)
        × (c.get (process_randao_mixes_reset sp kv).1.randao_mix j ≡ (
            if (slot_to_epoch sp.cs s + 1) % sp.cs.epochs_per_historical_vector == j
            then some prev
            else c.get kv.randao_mix j))
  unfolding process_randao_mixes_reset
  randao_mixes_reset_copies l j = ground (
    arith,
    slot_to_epoch_le sp.cs s,
    add64_eq (slot_to_epoch sp.cs s) 1,
    c.get-put kv.randao_mix (add64 (slot_to_epoch sp.cs s) 1 % sp.cs.epochs_per_historical_vector)
        prev j,
  )

  -- On a state with a slot, a mix at the place of its epoch, a genesis validators root and the
  -- proposer: if a reveal is accepted, then verification is skipped, or the proposer's signature
  -- over the signing root of the epoch is valid. It mixes the hash of the reveal into the place of
  -- the epoch, and leaves the other places and the registry.
  pub randao_reveal_mixes :
      (blk : BeaconBlock) (skip : Bool) (genesis_root : Bytes) (proposer : Validator)
      → c.read kv.genesis_validators_root ≡ some genesis_root
      → c.validator kv.validators blk.proposer_index ≡ some proposer
      → (process_randao_reveal sp blk skip kv).0 ≡ ok tt
      → (j : ℕ)
      → ((skip ≡ true)
          ⊎ ((root : Bytes) × (compute_randao_signing_root sp
                  (record {
                    current_version =
                        version_from_uint32
                          (active_fork_version_for_epoch sp.cs (slot_to_epoch sp.cs s));
                    genesis_validators_root = genesis_root;
                  })
                  sp.cs.domain_type_randao
                  (slot_to_epoch sp.cs s)
                ≡ ok root)
              × (sp.verify_signature proposer.pubkey root blk.body.randao_reveal ≡ ok tt)))
        × (c.get (process_randao_reveal sp blk skip kv).1.randao_mix j ≡ (
            if slot_to_epoch sp.cs s % sp.cs.epochs_per_historical_vector == j
            then some ((sp.xor_bytes prev (sp.sha256 blk.body.randao_reveal)).0)
            else c.get kv.randao_mix j))
        × ((process_randao_reveal sp blk skip kv).1.validators ≡ kv.validators)
  unfolding process_randao_reveal verify_randao_reveal build_randao_mix
  randao_reveal_mixes blk skip genesis_root proposer g v h j = ground (
    arith,
    c.get-put kv.randao_mix (slot_to_epoch sp.cs s % sp.cs.epochs_per_historical_vector)
        ((sp.xor_bytes prev (sp.sha256 blk.body.randao_reveal)).0) j,
  )
