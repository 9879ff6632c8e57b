-- ===== src/DataAvailability/Stored.antt =====
-- Sidecars that are persisted are available.
use beacon_kit.Prelude.{
  ℕ, List, [], ◌∷◌, Option, none, some, Bytes, Bool, true, false, bytes_eq, bytes_eq_iff, ◌||◌, ◌⊎◌,
  ◌≡◌, arith, refl, Bool-cases, inl, inr, All, ◌≢◌, ap, sym, ◌∙◌,
}
use beacon_kit.Exec.{Result, ok, err, lift, ◌>>=◌}
use beacon_kit.Chain.{ChainSpec, within_da_period}
use beacon_kit.RangeDb.{Files, RangeDb, has_value, set_value}
use beacon_kit.DataAvailability.{
  BlobSidecar, Sidecars, BlobVerifier, store_sidecar, store_all, join_errors, persist, persist_from,
  is_data_available, dereference,
}

-- Whether one of the sidecars is for the commitment.
unfoldable pub covers : Sidecars → Bytes → Bool
covers [] k = false
covers (none ∷ scs) k = covers scs k
covers (some sc ∷ scs) k = let rest = covers scs k in bytes_eq sc.kzg_commitment k || rest

covers_split :
    (sc : Option BlobSidecar) (scs : Sidecars) (k : Bytes) (b : Bool)
    → (covers (sc ∷ scs) k || b) ≡ true
    → ((covers (sc ∷ []) k || b) ≡ true) ⊎ (covers scs k ≡ true)
unfolding covers
covers_split none scs k b h = elim (Bool-cases (covers scs k)) [
  | inl c ↦ inr c
  | inr n ↦ inl (ground arith)
]
covers_split (some sc) scs k b h = elim (Bool-cases (covers scs k)) [
  | inl c ↦ inr c
  | inr n ↦ inl (ground arith)
]

pub join_errors_ok : (r rs : Result Unit) → join_errors r rs ≡ ok tt → (r ≡ ok tt) × (rs ≡ ok tt)
unfolding join_errors
join_errors_ok (ok tt) rs h = (refl, h)
join_errors_ok (err e) rs h = cc

module _ {f : Files} (v : BlobVerifier) where
  get_file-set_value :
      (slot : ℕ) (key value : Bytes) (db db' : RangeDb f)
      → set_value slot key value db ≡ (ok tt, db')
      → f.get_file db'.files slot key ≡ some value
  unfolding set_value
  get_file-set_value slot key value db db' h =
      f.get-set_file db.files db'.files slot key value (λ i. ((h i).0, (h i).1.files))

  get_file-set_value_keeps :
      (slot : ℕ) (key value k : Bytes) (db db' : RangeDb f)
      → key ≢ k
      → set_value slot key value db ≡ (ok tt, db')
      → f.get_file db'.files slot k ≡ f.get_file db.files slot k
  unfolding set_value
  get_file-set_value_keeps slot key value k db db' n h =
      ap (λ s. f.get_file s slot k) (sym (ap (λ p. p.1.files) h))
      ∙ f.set_file-keys db.files slot key value k n

  has_value-set_value :
      (slot : ℕ) (key value k : Bytes) (db db' : RangeDb f)
      → set_value slot key value db ≡ (ok tt, db')
      → (bytes_eq key k || has_value db slot k) ≡ true
      → has_value db' slot k ≡ true
  unfolding has_value
  has_value-set_value slot key value k db db' h p = elim (Bool-cases (bytes_eq key k)) [
    | inl same ↦
        let here = get_file-set_value slot key value db db' h in
        let e = (bytes_eq_iff key k).0 same in grind arith
    | inr other ↦
        let differs : key ≢ k = λ e. let t = (bytes_eq_iff key k).1 e in cc in
        let kept = get_file-set_value_keeps slot key value k db db' differs h in grind arith
  ]

  has_value-marshalled :
      (slot : ℕ) (sc : BlobSidecar) (k : Bytes) (r : Result Bytes) (db db' : RangeDb f)
      → (lift r >>= λ bz. set_value slot sc.kzg_commitment bz) db ≡ (ok tt, db')
      → (covers (some sc ∷ []) k || has_value db slot k) ≡ true
      → has_value db' slot k ≡ true
  unfolding covers
  has_value-marshalled slot sc k (err e) db db' h p = cc
  has_value-marshalled slot sc k (ok bz) db db' h p =
      has_value-set_value slot sc.kzg_commitment bz k db db' h (ground arith)

  has_value-store_sidecar :
      (slot : ℕ) (sc : Option BlobSidecar) (k : Bytes) (db db' : RangeDb f)
      → store_sidecar v slot sc db ≡ (ok tt, db')
      → (covers (sc ∷ []) k || has_value db slot k) ≡ true
      → has_value db' slot k ≡ true
  unfolding store_sidecar covers
  has_value-store_sidecar slot none k db db' h p = cc
  has_value-store_sidecar slot (some sc) k db db' h p =
      has_value-marshalled slot sc k (v.marshal_ssz sc) db db' h p

  has_value-store_all :
      (slot : ℕ) (scs : Sidecars) (k : Bytes) (db db' : RangeDb f)
      → store_all v slot scs db ≡ (ok tt, db')
      → (covers scs k || has_value db slot k) ≡ true
      → has_value db' slot k ≡ true
  unfolding store_all covers
  has_value-store_all slot [] k db db' h p = let e = ap (λ p. p.1) h in grind arith
  has_value-store_all slot (sc ∷ scs) k db db' h p =
      let one = store_sidecar v slot sc db in
      let rest = store_all v slot scs one.1 in
      let both = join_errors_ok one.0 rest.0 (ap (λ p. p.0) h) in
      let last : rest ≡ (ok tt, db') = λ i. (both.1 i, (h i).1) in
      let first : one ≡ (ok tt, one.1) = λ i. (both.0 i, one.1) in
      let here = has_value-store_sidecar slot sc k db one.1 first in
      let later = has_value-store_all slot scs k one.1 db' last in
      elim (covers_split sc scs k (has_value db slot k) p) [
        | inl one ↦ let held = here one in later (ground arith)
        | inr more ↦ later (ground arith)
      ]

  is_data_available-All :
      (db : RangeDb f) (slot : ℕ) (ks : List Bytes)
      → All (λ k. has_value db slot k ≡ true) ks
      → is_data_available db slot ks ≡ true
  unfolding is_data_available
  is_data_available-All db slot [] a = refl
  is_data_available-All db slot (k ∷ ks) (here, rest) =
      let later = is_data_available-All db slot ks rest in ground arith

  each_stored :
      (slot : ℕ) (scs : Sidecars) (ks : List Bytes) (db db' : RangeDb f)
      → store_all v slot scs db ≡ (ok tt, db')
      → All (λ k. covers scs k ≡ true) ks
      → All (λ k. has_value db' slot k ≡ true) ks
  each_stored slot scs [] db db' h a = tt
  each_stored slot scs (k ∷ ks) db db' h (here, rest) = (
    has_value-store_all slot scs k db db' h (ground arith),
    each_stored slot scs ks db db' h rest,
  )

  -- When sidecars whose first has its header within the availability period are persisted without
  -- an error, the data of a body is available as soon as each of its commitments is that of one of
  -- the sidecars.
  pub persist_available :
      (cs : ChainSpec) (slot : ℕ) (first : BlobSidecar) (scs : Sidecars) (ks : List Bytes)
      (db db' : RangeDb f)
      → within_da_period cs first.beacon_block_header.slot slot ≡ true
      → All (λ k. covers (some first ∷ scs) k ≡ true) ks
      → persist v cs slot (some (some first ∷ scs)) db ≡ (ok tt, db')
      → is_data_available db' slot ks ≡ true
  unfolding persist persist_from dereference
  persist_available cs slot first scs ks db db' w a h =
      let stored : store_all v slot (some first ∷ scs) db ≡ (ok tt, db') = ground arith in
      is_data_available-All db' slot ks (each_stored slot (some first ∷ scs) ks db db' stored a)
