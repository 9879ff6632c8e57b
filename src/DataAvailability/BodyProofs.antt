-- ===== src/DataAvailability/BodyProofs.antt =====
-- The branches of a commitment in the list of commitments, and of that list in the body of a block.
use native.Mathlib.Nat.{pow-le-pow_right, add-mul-div_right, div-eq_of_lt}
use mathlib.Core.List.{append_assoc}
use beacon_kit.Prelude.{
  ℕ, zero, suc, ◌+◌, ◌*◌, ◌/◌, ◌^◌, ◌≤◌, ◌<◌, List, [], ◌∷◌, ◌++◌, Bytes, length, get_or, ◌≡◌,
  arith, refl, ap, ◌∙◌,
}
use beacon_kit.Exec.{ok}
use beacon_kit.Types.{BeaconBlockBody, zero_root}
use beacon_kit.Merkle.{Hasher, neighbor_index, zero_hash}
use beacon_kit.Merkle.Layers.{node_above, get_or-parents, parents}
use beacon_kit.Merkle.Roots.{Fits, new_tree_from_leaves_with_depth-tree_of, tree_of}
use beacon_kit.Merkle.Proofs.{
  siblings, merkle_proof-siblings, length-siblings, root_from_branch-siblings,
}
use beacon_kit.Merkle.Sized.{depth_for, new_tree_with_max_leaves}
use beacon_kit.Merkle.Branches.{
  mixin_length, length_chunk, root_from_branch, merkle_proof_with_mixin, branch_rounds,
}
use beacon_kit.DataAvailability.Factory.{
  SidecarFactory, leafify, build_commitment_proof, build_block_body_proof, get_top_level_roots,
  element, commitment_leaf,
}
use beacon_kit.Math.Powers.{ilog2_ceil_pow, next_power_of_two_lem}
use beacon_kit.Math.{next_power_of_two, ilog2_ceil, bit_length}
use beacon_kit.Math.Bits.{pow_pos}
use beacon_kit.Merkle.Joined.{branch_rounds_low, branch_rounds_join}

-- The root of a list of at most 2 ^ k commitments.
unfoldable pub commitments_root : Hasher → ℕ → List Bytes → Bytes
commitments_root h k commitments =
    mixin_length h (node_above h k 0 (leafify h commitments) 0) (length commitments)

-- The root of a container of six fields.
unfoldable pub container_root : Hasher → Bytes → Bytes → Bytes → Bytes → Bytes → Bytes → Bytes
container_root h a b c d e f =
    h.sha256 (h.sha256 (h.sha256 a b) (h.sha256 c d))
      (h.sha256 (h.sha256 e f) (h.sha256 zero_root zero_root))

-- The root of a body by the SSZ rule for a container of six fields, the last of which is the list of
-- at most 2 ^ k commitments.
pub record IsHashable (f : SidecarFactory) (k : ℕ) (body : BeaconBlockBody) : Type 0 where
  pub randao : Bytes
  pub eth1 : Bytes
  pub deposits : Bytes
  pub payload : Bytes
  pub randao_eq : f.randao_root body ≡ ok randao
  pub eth1_eq : f.eth1_data_root body ≡ ok eth1
  pub deposits_eq : f.deposits_root body ≡ ok deposits
  pub payload_eq : f.payload_root body ≡ ok payload
  pub body_eq :
      f.body_root body
      ≡ ok (
          container_root f.hasher randao eth1
            (f.graffiti body)
            deposits
            payload
            (commitments_root f.hasher k body.blob_kzg_commitments))

depth_for_pow : (k : ℕ) → k ≤ 63 → depth_for (2 ^ k) ≡ ok k
unfolding depth_for
depth_for_pow k l =
    let exact = ilog2_ceil_pow k l in
    let (found, above, below) =
      next_power_of_two_lem (2 ^ k) (pow_pos k) (pow-le-pow_right (omega arith) l) in
    let again : ilog2_ceil (2 ^ ilog2_ceil (2 ^ k)) ≡ k =
      ap (λ j. ilog2_ceil (2 ^ j)) exact ∙ exact in
    rw found (ap ok again)

depth_for_five : depth_for 5 ≡ ok 3
unfolding depth_for next_power_of_two ilog2_ceil bit_length
depth_for_five = refl

pub length-leafify :
    (h : Hasher) (commitments : List Bytes) → length (leafify h commitments) ≡ length commitments
unfolding leafify
length-leafify h [] = refl
length-leafify h (c ∷ cs) = ap suc (length-leafify h cs)

body_siblings :
    (h : Hasher) (a b c d e : Bytes)
    → siblings h 5 3 0 (a ∷ b ∷ c ∷ d ∷ e ∷ zero_root ∷ [])
      ≡ e ∷ h.sha256 zero_root zero_root ∷ h.sha256 (h.sha256 a b) (h.sha256 c d) ∷ []
unfolding siblings neighbor_index zero_hash
body_siblings h a b c d e =
    let roots = a ∷ b ∷ c ∷ d ∷ e ∷ zero_root ∷ [] in
    let beside = get_or-parents h 0 3 roots in
    let left = get_or-parents h 0 0 roots in
    let right = get_or-parents h 0 1 roots in
    let top = get_or-parents h 1 0 (parents h 0 roots) in rw (top, left, right, beside) refl

module _ (f : SidecarFactory) (k : ℕ) (body : BeaconBlockBody) where
  pub commitment_proof :
      (i : ℕ)
      → k ≤ 62
      → f.routines ≤ 50
      → f.cs.max_blob_commitments_per_block ≡ 2 ^ k
      → Fits (leafify f.hasher body.blob_kzg_commitments) k
      → i < length (leafify f.hasher body.blob_kzg_commitments)
      → build_commitment_proof f body i
        ≡ ok (
            siblings f.hasher i k 0 (leafify f.hasher body.blob_kzg_commitments)
            ++ (length_chunk (length (leafify f.hasher body.blob_kzg_commitments)) ∷ []))
  unfolding build_commitment_proof new_tree_with_max_leaves merkle_proof_with_mixin tree_of
  commitment_proof i l r m fits within =
      let leaves = leafify f.hasher body.blob_kzg_commitments in
      let sized : depth_for f.cs.max_blob_commitments_per_block ≡ ok k =
        ap depth_for m ∙ depth_for_pow k (omega arith) in
      let built = new_tree_from_leaves_with_depth-tree_of f.hasher f.routines k leaves r fits in
      let proof = merkle_proof-siblings f.hasher k i leaves within in
      rw (sized, built) (rw proof refl)

  pub body_proof :
      (p : IsHashable f k body)
      → f.routines ≤ 50
      → f.kzg_position ≡ 5
      → build_block_body_proof f body
        ≡ ok (
            p.payload
            ∷ f.hasher.sha256 zero_root zero_root
            ∷ f.hasher.sha256
                (f.hasher.sha256 p.randao p.eth1)
                (f.hasher.sha256 (f.graffiti body) p.deposits)
            ∷ [])
  unfolding build_block_body_proof get_top_level_roots new_tree_with_max_leaves
  body_proof p r e =
      let h = f.hasher in
      let roots = p.randao ∷ p.eth1 ∷ f.graffiti body ∷ p.deposits ∷ p.payload ∷ zero_root ∷ [] in
      let fits : Fits roots 3 = record {
        some_leaf = omega arith;
        within = omega arith;
        above = omega arith;
        below = omega arith;
      } in
      let built = new_tree_from_leaves_with_depth-tree_of h f.routines 3 roots r fits in
      let proof = merkle_proof-siblings h 3 5 roots (omega arith) in
      rw (p.randao_eq, p.eth1_eq, p.deposits_eq, p.payload_eq)
        (rw depth_for_five (
          rw built (
            rw e (
              proof
              ∙ ap ok (body_siblings h p.randao p.eth1 (f.graffiti body) p.deposits p.payload)))))

pub get_or-leafify :
    (h : Hasher) (commitments : List Bytes) (i : ℕ) (c : Bytes)
    → element commitments i ≡ ok c
    → get_or (leafify h commitments) i zero_root ≡ commitment_leaf h c
unfolding leafify element
get_or-leafify h [] i c e = absurd (ground arith)
get_or-leafify h (x ∷ xs) zero c e = ap (commitment_leaf h) (ground arith)
get_or-leafify h (x ∷ xs) (suc i) c e = get_or-leafify h xs i c e

-- The branch of a commitment: the path to the root of the list, the length that is mixed in, and
-- the path of the list in the container.
pub branch_to_body :
    (h : Hasher) (k i : ℕ) (leaves : List Bytes) (a b c d e : Bytes)
    → i < 2 ^ k
    → root_from_branch h
        (get_or leaves i zero_root)
        ((siblings h i k 0 leaves ++ (length_chunk (length leaves) ∷ []))
          ++ e ∷ h.sha256 zero_root zero_root ∷ h.sha256 (h.sha256 a b) (h.sha256 c d) ∷ [])
        (k + 4)
        (i + 26 * 2 ^ k)
      ≡ ok (container_root h a b c d e (mixin_length h (node_above h k 0 leaves 0) (length leaves)))
unfolding root_from_branch branch_rounds mixin_length container_root
branch_to_body h k i leaves a b c d e l =
    let p = siblings h i k 0 leaves in
    let q = e ∷ h.sha256 zero_root zero_root ∷ h.sha256 (h.sha256 a b) (h.sha256 c d) ∷ [] in
    let m = length_chunk (length leaves) in
    let node = get_or leaves i zero_root in
    let sized = length-siblings h i k 0 leaves in
    let low = branch_rounds_low h 26 i 0 k p node in
    let same : 0 + k ≡ k = omega arith in
    let below : branch_rounds h (i + 26 * 2 ^ k) k 0 p node ≡ ok (node_above h k 0 leaves 0) =
      (rw same at low) ∙ root_from_branch-siblings h k i leaves l in
    let high : (i + 26 * 2 ^ k) / 2 ^ k ≡ 26 =
      add-mul-div_right i 26 (pow_pos k) ∙ ap (λ j. j + 26) (div-eq_of_lt l) in
    let joined =
      branch_rounds_join h (i + 26 * 2 ^ k) k 4 p (m ∷ q) node (node_above h k 0 leaves 0) sized
        below in
    rw append_assoc (joined ∙ rw (high, h.hash_chunks-pair) refl)
