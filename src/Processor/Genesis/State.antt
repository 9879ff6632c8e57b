-- ===== src/Processor/Genesis/State.antt =====
-- The state that genesis leaves.
use mathlib.Core.Path.{subst⁻¹}
use beacon_kit.Prelude.{
  zero, suc, [], ◌∷◌, some, refl, arith, Bytes, ℕ, List, ◌≡◌, if◌then◌else◌, leb, ltb, ◌&&◌, ◌+◌,
  length, ◌<◌, u64_mod, ◌⊎◌, ◌≤◌, Bool-cases, inl, inr,
}
use beacon_kit.Exec.{ok, err, Result}
use beacon_kit.Exec.Success.{Succeeds, >>=-Succeeds}
use beacon_kit.Collections.{Collections}
use beacon_kit.BeaconDb.{Kv}
use beacon_kit.Processor.{StateProcessor}
use beacon_kit.Processor.Genesis.{
  prime_mixes, prime_roots, prepare, conclude, initialize, empty_root, genesis_header,
  version_to_uint32,
}
use beacon_kit.Processor.Epoch.{process_sync_committee_updates}
use beacon_kit.Types.{ExecutionPayloadHeader, zero_root, ValidatorUpdate, Deposit}
use beacon_kit.BeaconDb.Registry.{lookup_all}
use beacon_kit.Processor.Deposits.{process_deposits}
use beacon_kit.Processor.Block.Keeps.{process_deposits-IsKeeping, process_deposits_mixes}
use beacon_kit.Processor.Deposits.Registry.{process_deposits_count}

module _ {c : Collections} (sp : StateProcessor) where
  prime_mixes_effect :
      (mix : Bytes) (i n : ℕ) (kv : Kv c) (j : ℕ)
      → ((prime_mixes sp mix i n kv).0 ≡ ok tt)
        × (c.get (prime_mixes sp mix i n kv).1.randao_mix j
            ≡ (if leb i j && ltb j (i + n) then some mix else c.get kv.randao_mix j))
        × ((prime_mixes sp mix i n kv).1.slot ≡ kv.slot)
        × ((prime_mixes sp mix i n kv).1.latest_block_header ≡ kv.latest_block_header)
        × ((prime_mixes sp mix i n kv).1.eth1_deposit_index ≡ kv.eth1_deposit_index)
  unfolding prime_mixes
  prime_mixes_effect mix i zero kv j = ground arith
  prime_mixes_effect mix i (suc n) kv j = ground (
    arith,
    c.get-put kv.randao_mix i mix j,
    prime_mixes_effect mix (i + 1) n (record kv { randao_mix = c.put kv.randao_mix i mix }) j,
  )

  prime_roots_effect :
      (i n : ℕ) (kv : Kv c) (j : ℕ)
      → ((prime_roots sp i n kv).0 ≡ ok tt)
        × (c.get (prime_roots sp i n kv).1.block_roots j
            ≡ (if leb i j && ltb j (i + n) then some zero_root else c.get kv.block_roots j))
        × (c.get (prime_roots sp i n kv).1.state_roots j
            ≡ (if leb i j && ltb j (i + n) then some zero_root else c.get kv.state_roots j))
        × ((prime_roots sp i n kv).1 ≡ (record kv {
          block_roots = (prime_roots sp i n kv).1.block_roots;
          state_roots = (prime_roots sp i n kv).1.state_roots;
        }))
  unfolding prime_roots
  prime_roots_effect i zero kv j = ground arith
  prime_roots_effect i (suc n) kv j = ground (
    arith,
    c.get-put kv.block_roots i zero_root j,
    c.get-put kv.state_roots i zero_root j,
    prime_roots_effect (i + 1) n
        (record kv {
          block_roots = c.put kv.block_roots i zero_root;
          state_roots = c.put kv.state_roots i zero_root;
        })
        j,
  )

  lookup_all_reads : (is : List ℕ) (kv : Kv c) → (lookup_all is kv).1 ≡ kv
  unfolding lookup_all
  lookup_all_reads [] kv = refl
  lookup_all_reads (i ∷ is) kv = ground (arith, lookup_all_reads is kv)

  sync_updates_read : (kv : Kv c) → (process_sync_committee_updates sp kv).1 ≡ kv
  unfolding process_sync_committee_updates
  sync_updates_read kv = ground (arith, lookup_all_reads (c.by_effective_balance kv.validators) kv)

  prepare_effect :
      (header : ExecutionPayloadHeader) (version : Bytes) (kv kv1 : Kv c)
      → Succeeds (prepare sp header version) kv tt kv1
      → (j : ℕ)
      → (c.read kv1.slot ≡ some 0)
        × (c.read kv1.eth1_deposit_index ≡ some 0)
        × (c.get kv1.randao_mix j ≡ (
            if ltb j sp.cs.epochs_per_historical_vector
            then some header.block_hash
            else c.get kv.randao_mix j))
        × ((root : Bytes) × (sp.empty_body_root (version_to_uint32 version) ≡ ok root)
            × (c.read kv1.latest_block_header ≡ some (genesis_header root)))
  unfolding prepare empty_root
  prepare_effect header version kv kv1 h j =
      go (sp.empty_body_root (version_to_uint32 version)) refl
    where
      go :
          (r : Result Bytes)
          → sp.empty_body_root (version_to_uint32 version) ≡ r
          → (c.read kv1.slot ≡ some 0)
            × (c.read kv1.eth1_deposit_index ≡ some 0)
            × (c.get kv1.randao_mix j ≡ (
                if ltb j sp.cs.epochs_per_historical_vector
                then some header.block_hash
                else c.get kv.randao_mix j))
            × ((root : Bytes) × (sp.empty_body_root (version_to_uint32 version) ≡ ok root)
                × (c.read kv1.latest_block_header ≡ some (genesis_header root)))
      go (ok root) e =
          let kv0 = record kv {
            slot = c.write kv.slot 0;
            fork =
                c.write kv.fork
                  (record { previous_version = version; current_version = version; epoch = 0 });
            eth1_deposit_index = c.write kv.eth1_deposit_index 0;
            eth1_data = c.write kv.eth1_data (record {
              deposit_root = zero_root;
              deposit_count = 0;
              block_hash = header.block_hash;
            });
            latest_block_header = c.write kv.latest_block_header (genesis_header root);
          } in
          let primed =
            prime_mixes_effect header.block_hash 0 sp.cs.epochs_per_historical_vector kv0 j in
          (
            ground (arith, primed, c.read-write kv.slot 0),
            ground (arith, primed, c.read-write kv.eth1_deposit_index 0),
            ground (arith, primed),
            (
              root,
              e,
              ground (arith, primed, c.read-write kv.latest_block_header (genesis_header root)),
            ),
          )
      go (err x) e = absurd (ground arith)

  -- What the last part of genesis leaves of the state before it.
  abbrev IsConcluded : ExecutionPayloadHeader → Kv c → Kv c → ℕ → Type 0
  IsConcluded header kv kv1 j =
      (kv1.slot ≡ kv.slot)
      × (kv1.eth1_deposit_index ≡ kv.eth1_deposit_index)
      × (kv1.latest_block_header ≡ kv.latest_block_header)
      × (kv1.randao_mix ≡ kv.randao_mix)
      × (c.read kv1.latest_execution_payload_header ≡ some header)
      × (c.read kv1.next_withdrawal_index ≡ some 0)
      × (c.read kv1.next_withdrawal_validator_index ≡ some 0)
      × (c.read kv1.total_slashing ≡ some 0)
      × (c.get kv1.block_roots j
          ≡ (if ltb j sp.cs.historical_roots_limit then some zero_root else c.get kv.block_roots j))
      × (c.get kv1.state_roots j
          ≡ (if ltb j sp.cs.historical_roots_limit then some zero_root else c.get kv.state_roots j))
      × ((root : Bytes) × (sp.validators_root (c.validators kv1.validators) ≡ ok root)
          × (c.read kv1.genesis_validators_root ≡ some root))

  conclude_effect :
      (header : ExecutionPayloadHeader) (us : List ValidatorUpdate) (kv kv1 : Kv c)
      → Succeeds (conclude sp header) kv us kv1
      → (j : ℕ) → IsConcluded header kv kv1 j
  unfolding conclude
  conclude_effect header us kv kv1 h j = go (sp.validators_root (c.validators kv.validators)) refl
    where
      go :
          (r : Result Bytes)
          → sp.validators_root (c.validators kv.validators) ≡ r
          → IsConcluded header kv kv1 j
      go (ok root) e =
          let kv0 = record kv {
            genesis_validators_root = c.write kv.genesis_validators_root root;
            latest_execution_payload_version =
                c.write kv.latest_execution_payload_version header.version;
            latest_execution_payload_header = c.write kv.latest_execution_payload_header header;
          } in
          let n = sp.cs.historical_roots_limit in
          let primed = prime_roots_effect 0 n kv0 j in
          let kv2 = record kv0 {
            block_roots = (prime_roots sp 0 n kv0).1.block_roots;
            state_roots = (prime_roots sp 0 n kv0).1.state_roots;
            next_withdrawal_index = c.write kv.next_withdrawal_index 0;
            next_withdrawal_validator_index = c.write kv.next_withdrawal_validator_index 0;
            total_slashing = c.write kv.total_slashing 0;
          } in
          let final : kv1 ≡ kv2 = ground (arith, primed, sync_updates_read kv2) in
          let concluded : IsConcluded header kv kv2 j = (
            refl,
            refl,
            refl,
            refl,
            c.read-write kv.latest_execution_payload_header header,
            c.read-write kv.next_withdrawal_index 0,
            c.read-write kv.next_withdrawal_validator_index 0,
            c.read-write kv.total_slashing 0,
            ground (arith, primed),
            ground (arith, primed),
            (root, e, c.read-write kv.genesis_validators_root root),
          ) in
          subst⁻¹ (λ k. IsConcluded header kv k j) final concluded
      go (err x) e = absurd (ground arith)

  -- Genesis on any store, with fewer than 2^64 deposits, if it succeeds: the slot, the two
  -- withdrawal cursors and the total of slashings are 0; the deposit index is the number of
  -- deposits; the latest payload header is the one given; the latest block header is the genesis
  -- header over the root of the empty body of the fork; the stored validators root is the root of
  -- the registry as it is at the end; the mixes below the length of their vector are the block hash
  -- of the payload and the others as before; and the block and state roots below their limit are
  -- zero.
  pub initialize_sets :
      (deposits : List Deposit) (header : ExecutionPayloadHeader) (version : Bytes) (kv kv' : Kv c)
      (us : List ValidatorUpdate)
      → length deposits < u64_mod
      → initialize sp deposits header version kv ≡ (ok us, kv')
      → (j : ℕ)
      → (c.read kv'.slot ≡ some 0)
        × (c.read kv'.next_withdrawal_index ≡ some 0)
        × (c.read kv'.next_withdrawal_validator_index ≡ some 0)
        × (c.read kv'.total_slashing ≡ some 0)
        × (c.read kv'.eth1_deposit_index ≡ some (length deposits))
        × (c.read kv'.latest_execution_payload_header ≡ some header)
        × ((root : Bytes) × (sp.empty_body_root (version_to_uint32 version) ≡ ok root)
            × (c.read kv'.latest_block_header ≡ some (genesis_header root)))
        × ((root : Bytes) × (sp.validators_root (c.validators kv'.validators) ≡ ok root)
            × (c.read kv'.genesis_validators_root ≡ some root))
        × (c.get kv'.randao_mix j ≡ (
            if ltb j sp.cs.epochs_per_historical_vector
            then some header.block_hash
            else c.get kv.randao_mix j))
        × (sp.cs.historical_roots_limit ≤ j
            ⊎ ((c.get kv'.block_roots j ≡ some zero_root)
                × (c.get kv'.state_roots j ≡ some zero_root)))
  unfolding initialize
  initialize_sets deposits header version kv kv' us l h j =
      let (u1, kv1, h1, r1) = >>=-Succeeds (prepare sp header version) _ kv us kv' h in
      let (u2, kv2, h2, h3) = >>=-Succeeds (process_deposits sp deposits) _ kv1 us kv' r1 in
      let (slot, index, mixes, (root, rooted, latest)) =
        prepare_effect header version kv kv1 h1 j in
      let (e1, e2, e3, e4, payload, next, cursor, total, blocks, states, registry) =
        conclude_effect header us kv2 kv' h3 j in
      let (k1, k2, k3) = (process_deposits-IsKeeping sp deposits).at kv1 in
      let m = process_deposits_mixes sp deposits kv1 in
      let count = process_deposits_count sp deposits 0 kv1 index (omega arith) (cc) in
      (
        cc,
        next,
        cursor,
        total,
        ground (arith, count, e2),
        payload,
        (root, rooted, cc),
        registry,
        cc,
        elim (Bool-cases (ltb j sp.cs.historical_roots_limit)) [
          | inl below ↦ inr (ground (arith, blocks), ground (arith, states))
          | inr above ↦ inl (ground arith)
        ],
      )
