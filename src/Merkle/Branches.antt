-- ===== src/Merkle/Branches.antt =====
-- mod/primitives/pkg/merkle/tree.go and proof.go: the root of a tree, the branches of its leaves and
-- the check of a branch.
use beacon_kit.Prelude.{
  ℕ, zero, suc, ◌/◌, ◌%◌, ◌^◌, Bytes, List, [], ◌∷◌, ◌++◌, ltb, leb, ◌==◌, ◌&&◌, Bool, false,
  if◌then◌else◌, length, replicate, get_or, get_last?, bytes_eq, Option, none, some,
}
use beacon_kit.Exec.{Result, ok, err, bind_result, panic, merkle_index_out_of_range}
use beacon_kit.Types.{zero_root}
use beacon_kit.Processor.Randao.{little_endian}
use beacon_kit.Merkle.{Hasher, Tree, zero_hash, neighbor_index}

-- nodes[0]
unfoldable pub first_node : Option (List Bytes) → Result Bytes
first_node none = err panic
first_node (some []) = err panic
first_node (some (node ∷ nodes)) = ok node

-- Root
unfoldable pub root_of : Tree → Result Bytes
unfolding first_node
root_of t = first_node (get_last? t.branches)

-- A length as the 32-byte node that is mixed in.
unfoldable pub length_chunk : ℕ → Bytes
length_chunk n = little_endian 8 n ++ replicate 24 0

-- The number of leaves that HashTreeRoot mixes in: none when the only leaf is zero.
unfoldable pub num_items : List Bytes → ℕ
num_items leaves =
    if length leaves == 1 && bytes_eq (get_or leaves 0 zero_root) zero_root
    then 0
    else length leaves

module _ (h : Hasher) where
  -- MixinLength
  unfoldable pub mixin_length : Bytes → ℕ → Bytes
  unfolding length_chunk
  mixin_length element n = get_or (h.hash_chunks (element ∷ length_chunk n ∷ [])) 0 zero_root

  -- HashTreeRoot
  unfoldable pub hash_tree_root_of : Tree → Result Bytes
  unfolding root_of mixin_length num_items
  hash_tree_root_of t =
      bind_result (root_of t) (λ root. ok (mixin_length root (num_items t.leaves)))

  -- The loop of MerkleProof: the rounds left, the depth, the layers from that depth up.
  unfoldable pub proof_rounds : ℕ → ℕ → ℕ → List (List Bytes) → Result (List Bytes)
  unfolding neighbor_index zero_hash
  proof_rounds leaf_index zero d layers = ok []
  proof_rounds leaf_index (suc rounds) d [] = err panic
  proof_rounds leaf_index (suc rounds) d (layer ∷ layers) =
      let node = get_or layer (neighbor_index (leaf_index / 2 ^ d)) (zero_hash h d) in
      bind_result (proof_rounds leaf_index rounds (suc d) layers) (λ rest. ok (node ∷ rest))

  -- The test of the index in MerkleProof, against the first layer.
  unfoldable pub proof_within : ℕ → ℕ → List (List Bytes) → Result (List Bytes)
  unfolding proof_rounds
  proof_within leaf_index depth [] = err panic
  proof_within leaf_index depth (layer ∷ layers) =
      if leb (length layer) leaf_index
      then err (merkle_index_out_of_range (length layer) leaf_index)
      else proof_rounds leaf_index depth 0 (layer ∷ layers)

  -- MerkleProof
  unfoldable pub merkle_proof : Tree → ℕ → Result (List Bytes)
  unfolding proof_within
  merkle_proof t leaf_index = proof_within leaf_index t.depth t.branches

  -- MerkleProofWithMixin
  unfoldable pub merkle_proof_with_mixin : Tree → ℕ → Result (List Bytes)
  unfolding merkle_proof length_chunk
  merkle_proof_with_mixin t index =
      bind_result (merkle_proof t index)
        (λ proof. ok (proof ++ (length_chunk (length t.leaves) ∷ [])))

  -- RootFromBranch: the loop, over the rounds left. `branch[i]` panics past the end of the branch.
  unfoldable pub branch_rounds : ℕ → ℕ → ℕ → List Bytes → Bytes → Result Bytes
  branch_rounds index zero i branch merkle_root = ok merkle_root
  branch_rounds index (suc rounds) i [] merkle_root = err panic
  branch_rounds index (suc rounds) i (node ∷ branch) merkle_root =
      branch_rounds index rounds (suc i) branch
        (if index / 2 ^ i % 2 == 1 then h.sha256 node merkle_root else h.sha256 merkle_root node)

  unfoldable pub root_from_branch : Bytes → List Bytes → ℕ → ℕ → Result Bytes
  unfolding branch_rounds
  root_from_branch leaf branch depth index = branch_rounds index depth 0 branch leaf

  -- IsValidMerkleBranch
  unfoldable pub is_valid_merkle_branch : Bytes → List Bytes → ℕ → ℕ → Bytes → Result Bool
  unfolding root_from_branch
  is_valid_merkle_branch leaf branch depth index root =
      if length branch == depth
      then bind_result (root_from_branch leaf branch depth index) (λ r. ok (bytes_eq r root))
      else ok false

  -- VerifyProof
  unfoldable pub verify_proof : Bytes → Bytes → ℕ → List Bytes → Result Bool
  unfolding is_valid_merkle_branch
  verify_proof root leaf merkle_index proof =
      if ltb 255 (length proof)
      then ok false
      else is_valid_merkle_branch leaf proof (length proof) merkle_index root
