-- ===== src/Blockchain/Finalized.antt =====
-- A block that is finalized.
use beacon_kit.Prelude.{List, ◌∷◌, some, true, ◌≡◌, refl, All}
use beacon_kit.Exec.{ok}
use beacon_kit.Types.{BeaconBlock, ValidatorUpdate}
use beacon_kit.Chain.{within_da_period}
use beacon_kit.Collections.{Collections}
use beacon_kit.Processor.Block.{BeaconState, transition}
use beacon_kit.RangeDb.{Files, RangeDb}
use beacon_kit.DataAvailability.{BlobSidecar, Sidecars, persist}
use beacon_kit.DataAvailability.Stored.{covers, persist_available}
use beacon_kit.Blockchain.{Service, finalize_context, process_block_and_blobs, finalized}

module _ {c : Collections} {f : Files} (svc : Service) where
  -- When the transition of a block succeeds, its sidecars are stored without an error, the first of
  -- them has its header within the availability period, and each commitment of the block is that of
  -- one of them, then the block is finalized: the updates of the transition are returned, with the
  -- state that it made.
  pub finalizes_available :
      (blk : BeaconBlock) (first : BlobSidecar) (scs : Sidecars) (updates : List ValidatorUpdate)
      (st : BeaconState c) (db db' : RangeDb f)
      → (transition svc.sp finalize_context st (some blk)).0 ≡ ok updates
      → persist svc.verifier svc.sp.cs blk.slot (some (some first ∷ scs)) db ≡ (ok tt, db')
      → within_da_period svc.sp.cs first.beacon_block_header.slot blk.slot ≡ true
      → All (λ k. covers (some first ∷ scs) k ≡ true) blk.body.blob_kzg_commitments
      → process_block_and_blobs svc (some blk) (some (some first ∷ scs)) (st, db)
        ≡ (ok updates, (transition svc.sp finalize_context st (some blk)).1, db')
  unfolding process_block_and_blobs finalized
  finalizes_available blk first scs updates st db db' h p w a =
      let available =
        persist_available svc.verifier svc.sp.cs blk.slot first scs blk.body.blob_kzg_commitments db
          db' w a p in
      rw h (rw p (rw available refl))
