-- ===== src/PayloadBuilder/Requests.antt =====
-- What a request for a payload leaves in the cache, and what later calls make of it.
use beacon_kit.Prelude.{ℕ, Option, none, some, Bytes, true, ◌≡◌, ==_refl, bytes_eq_refl, arith}
use beacon_kit.Exec.{ok, err}
use beacon_kit.Chain.{active_fork_version_for_slot}
use beacon_kit.Collections.{Collections}
use beacon_kit.BeaconDb.{Kv}
use beacon_kit.PayloadCache.{Cache, get}
use beacon_kit.PayloadCache.Lookups.{get-set}
use beacon_kit.Engine.{EngineError, notify_forkchoice_update}
use beacon_kit.PayloadBuilder.{
  PayloadBuilder, done, request_payload_async, request_new_payload, cache_payload_id,
  retrieve_payload, retrieved, build_request, get_payload_attribute,
}

module _ {E : Type 0} (pb : PayloadBuilder E) where
  cached-cache_payload_id :
      (slot : ℕ) (root id : Bytes) (answer : Option Bytes × Option Bytes × Option EngineError)
      (cache cache' : Cache)
      → cache_payload_id pb slot root answer cache ≡ (done (some id), cache')
      → get cache' slot root ≡ some id
  unfolding cache_payload_id
  cached-cache_payload_id slot root id (i, hash, some e) cache cache' h = cc
  cached-cache_payload_id slot root id (none, hash, none) cache cache' h = cc
  cached-cache_payload_id slot root id (some i, hash, none) cache cache' h =
      ground (arith, get-set cache slot root i slot root, ==_refl slot, bytes_eq_refl root)

  cached-request_new_payload :
      (slot : ℕ) (root head final id : Bytes) (attributes : _) (cache cache' : Cache)
      → request_new_payload pb slot root head final attributes cache ≡ (done (some id), cache')
      → get cache' slot root ≡ some id
  unfolding request_new_payload
  cached-request_new_payload slot root head final id (err e) cache cache' h = cc
  cached-request_new_payload slot root head final id (ok attributes) cache cache' h =
      cached-cache_payload_id slot root id
        (notify_forkchoice_update pb.client (build_request pb slot head final attributes)) cache
        cache' h

module _ {c : Collections} {E : Type 0} (pb : PayloadBuilder E) where
  enabled-request_payload_async :
      (st : Kv c) (slot timestamp : ℕ) (root head final id : Bytes) (cache cache' : Cache)
      → request_payload_async pb st slot timestamp root head final cache ≡ (done (some id), cache')
      → pb.enabled ≡ true
  unfolding request_payload_async
  enabled-request_payload_async st slot timestamp root head final id cache cache' h = ground arith

  cached-request_payload_async :
      (st : Kv c) (slot timestamp : ℕ) (root head final id : Bytes) (cache cache' : Cache)
      → request_payload_async pb st slot timestamp root head final cache ≡ (done (some id), cache')
      → get cache' slot root ≡ some id
  unfolding request_payload_async
  cached-request_payload_async st slot timestamp root head final id cache cache' h = ground (
    arith,
    cached-request_new_payload pb slot root head final id
        (get_payload_attribute pb slot timestamp root st).0 cache cache',
  )

  -- After a request that gave a payload id, what is retrieved at that slot and root is what
  -- RetrievePayload makes of the answer of the client for that id; and a further request at that slot
  -- and root, whatever its state, its timestamp and its hashes, gives the same id and leaves the cache
  -- as it is.
  pub request_then_retrieve :
      (st st' : Kv c) (slot timestamp timestamp' : ℕ) (root head final head' final' id : Bytes)
      (cache cache' : Cache)
      → request_payload_async pb st slot timestamp root head final cache ≡ (done (some id), cache')
      → (retrieve_payload pb slot root cache'
          ≡ retrieved pb (pb.get_payload id (active_fork_version_for_slot pb.cs slot)))
        × (request_payload_async pb st' slot timestamp' root head' final' cache'
            ≡ (done (some id), cache'))
  unfolding request_payload_async retrieve_payload
  request_then_retrieve st st' slot timestamp timestamp' root head final head' final' id cache
        cache' h =
      let e = enabled-request_payload_async st slot timestamp root head final id cache cache' h in
      let g = cached-request_payload_async st slot timestamp root head final id cache cache' h in
      (ground arith, ground arith)
