-- ===== src/Blockchain/Building/Retrieved.antt =====
-- The payload that is built on top of an accepted block, as the builder gives it out.
use beacon_kit.Prelude.{ℕ, some, Bytes, add64, ◌≡◌, arith, refl, []}
use beacon_kit.Exec.{Result, ok, err}
use beacon_kit.Types.{BeaconBlock}
use beacon_kit.Chain.{active_fork_version_for_slot}
use beacon_kit.Collections.{Collections}
use beacon_kit.BeaconDb.{Kv}
use beacon_kit.PayloadCache.{Cache}
use beacon_kit.PayloadBuilder.{
  PayloadBuilder, done, retrieve_payload, retrieved, request_payload_async,
}
use beacon_kit.PayloadBuilder.Requests.{request_then_retrieve}
use beacon_kit.Blockchain.{Service}
use beacon_kit.Blockchain.Building.{
  PayloadRequest, run_request, optimistic_request, optimistic_payload_build,
}

module _ {c : Collections} {E : Type 0} (svc : Service) (pb : PayloadBuilder E)
    (block_root : BeaconBlock → Result Bytes) where
  optimistic_request-at :
      (now : ℕ) (blk : BeaconBlock) (root : Bytes) (st : Kv c) (req : PayloadRequest)
      → block_root blk ≡ ok root
      → (optimistic_request svc block_root now blk st).0 ≡ ok req
      → (req.slot ≡ add64 blk.slot 1) × (req.parent_block_root ≡ root)
  unfolding optimistic_request
  optimistic_request-at now blk root st req r e = (ground arith, ground arith)

  retrieved-request_payload_async :
      (id root : Bytes) (slot : ℕ) (req : PayloadRequest) (st : Kv c) (cache cache' : Cache)
      → request_payload_async pb st req.slot req.timestamp req.parent_block_root req.head_block_hash
          req.final_block_hash cache
        ≡ (done (some id), cache')
      → (req.slot ≡ slot) × (req.parent_block_root ≡ root)
      → retrieve_payload pb slot root cache'
        ≡ retrieved pb (pb.get_payload id (active_fork_version_for_slot pb.cs slot))
  retrieved-request_payload_async id root slot req st cache cache' h (s, r) =
      let found =
        (request_then_retrieve pb st st req.slot req.timestamp req.timestamp req.parent_block_root
          req.head_block_hash req.final_block_hash [] [] id cache cache' h).0 in
      cc

  retrieved-run_request :
      (now : ℕ) (blk : BeaconBlock) (root id : Bytes) (prepared : Result PayloadRequest × Kv c)
      (cache cache' : Cache)
      → ((req : PayloadRequest)
          → prepared.0 ≡ ok req
          → (req.slot ≡ add64 blk.slot 1) × (req.parent_block_root ≡ root))
      → run_request svc pb block_root prepared cache ≡ (done (some id), cache')
      → retrieve_payload pb (add64 blk.slot 1) root cache'
        ≡ retrieved pb (pb.get_payload id (active_fork_version_for_slot pb.cs (add64 blk.slot 1)))
  unfolding run_request
  retrieved-run_request now blk root id (err e, st) cache cache' p h = cc
  retrieved-run_request now blk root id (ok req, st) cache cache' p h =
      retrieved-request_payload_async id root (add64 blk.slot 1) req st cache cache' h (p req refl)

  -- When the optimistic build after a block whose root can be computed gives a payload id, what the
  -- builder retrieves for the next slot, on top of that block, is what RetrievePayload makes of the
  -- answer of the client for that id.
  pub optimistic_build_retrieved :
      (now : ℕ) (blk : BeaconBlock) (root id : Bytes) (st : Kv c) (cache cache' : Cache)
      → block_root blk ≡ ok root
      → optimistic_payload_build svc pb block_root now blk st cache ≡ (done (some id), cache')
      → retrieve_payload pb (add64 blk.slot 1) root cache'
        ≡ retrieved pb (pb.get_payload id (active_fork_version_for_slot pb.cs (add64 blk.slot 1)))
  unfolding optimistic_payload_build
  optimistic_build_retrieved now blk root id st cache cache' r h =
      retrieved-run_request now blk root id (optimistic_request svc block_root now blk st) cache
        cache' (λ req e. optimistic_request-at now blk root st req r e) h
