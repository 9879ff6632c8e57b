-- ===== src/Processor/Slots/Record.antt =====
-- What processSlot records.
use beacon_kit.Prelude.{ℕ, ◌<◌, ◌%◌, some, Bytes, ◌≡◌, arith, if◌then◌else◌, ◌==◌}
use beacon_kit.Exec.{ok}
use beacon_kit.StateDb.{hash_tree_root}
use beacon_kit.StateDb.Hashing.{hash_tree_root-IsReader}
use beacon_kit.Collections.{Collections}
use beacon_kit.Processor.{StateProcessor, BeaconBlockHeader}
use beacon_kit.BeaconDb.{Kv}
use beacon_kit.Processor.Slots.{fill_state_root, process_slot}

module _ {c : Collections} (sp : StateProcessor) (kv : Kv c) (s : ℕ) (h : BeaconBlockHeader)
    (state_root block_root : Bytes) (slot : c.read kv.slot ≡ some s)
    (ring : 0 < sp.cs.slots_per_historical_root)
    (hashed : (hash_tree_root sp.state_root sp.cs kv).0 ≡ ok state_root)
    (latest : c.read kv.latest_block_header ≡ some h)
    (rooted : sp.header_root (fill_state_root state_root h) ≡ ok block_root) where
  -- With at least one slot in the rings of historical roots, on a state with a slot and a latest
  -- header, whose root and completed header have roots: processSlot succeeds. It stores the root of the state before it and the root of the completed
  -- latest header at the slot's place in the two rings, and leaves the other places; it keeps the
  -- completed header, the slot, the validators, the balances and the mixes.
  pub process_slot_records :
      (j : ℕ)
      → let kv' = (process_slot sp kv).1 in
        let here = s % sp.cs.slots_per_historical_root in
        ((process_slot sp kv).0 ≡ ok tt)
        × (c.get kv'.state_roots j
            ≡ (if here == j then some state_root else c.get kv.state_roots j))
        × (c.get kv'.block_roots j
            ≡ (if here == j then some block_root else c.get kv.block_roots j))
        × (c.read kv'.latest_block_header ≡ some (fill_state_root state_root h))
        × (kv'.slot ≡ kv.slot)
        × (kv'.validators ≡ kv.validators)
        × (kv'.balances ≡ kv.balances)
        × (kv'.randao_mix ≡ kv.randao_mix)
  unfolding process_slot
  process_slot_records j = ground (
    arith,
    (hash_tree_root-IsReader sp.state_root sp.cs).at kv,
    c.get-put kv.state_roots (s % sp.cs.slots_per_historical_root) state_root j,
    c.get-put kv.block_roots (s % sp.cs.slots_per_historical_root) block_root j,
    c.read-write kv.latest_block_header (record h { state_root = state_root }),
  )
