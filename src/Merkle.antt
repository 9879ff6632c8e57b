-- ===== src/Merkle.antt =====
-- mod/primitives/pkg/merkle: roots, trees and branches over 32-byte nodes. This file builds them.
pub mod Branches
pub mod Insert
pub mod Parallel
pub mod Layers
pub mod Roots
pub mod Proofs
pub mod Updates
pub mod Sized
pub mod Joined
use beacon_kit.Prelude.{
  ℕ, zero, suc, ◌+◌, ◌-◌, ◌*◌, ◌/◌, ◌%◌, ◌^◌, min, max, Bytes, List, [], ◌∷◌, ◌++◌, ltb, leb, ◌==◌,
  Bool, if◌then◌else◌, length, replicate, slice, write_at, ◌≡◌, get_or, bytes_eq, Option, none,
  some, true, false, ◌&&◌,
}
use beacon_kit.Exec.{
  Result, ok, err, bind_result, panic, empty_leaves, zero_depth, exceeded_depth,
  insufficient_depth_for_leaves, odd_length_tree_roots, merkle_index_out_of_range,
}
use beacon_kit.Types.{zero_root}

-- The SHA-256 libraries: Sum256 on an input of two 32-byte halves, and gohashtree.Hash, which
-- documents that it hashes the chunks two at a time. Its output is sized for an even number of them.
pub record Hasher : Type 0 where
  pub sha256 : Bytes → Bytes → Bytes
  pub hash_chunks : List Bytes → List Bytes
  pub hash_chunks-nil : hash_chunks [] ≡ []
  pub hash_chunks-pair :
      (a b : Bytes) (rest : List Bytes) → hash_chunks (a ∷ b ∷ rest) ≡ sha256 a b ∷ hash_chunks rest

-- MinParallelizationSize
abbrev pub min_parallelization_size : ℕ
min_parallelization_size = 5000

-- MaxTreeDepth
abbrev pub max_tree_depth : ℕ
max_tree_depth = 62

module _ (h : Hasher) where
  -- zero.Hashes, as InitZeroHashes fills it.
  unfoldable pub zero_hash : ℕ → Bytes
  zero_hash zero = zero_root
  zero_hash (suc d) = let z = zero_hash d in h.sha256 z z

  -- zero.Hashes[d], in an array of NumZeroHashes + 1 entries.
  unfoldable pub zero_hash_at : ℕ → Result Bytes
  unfolding zero_hash
  zero_hash_at d = if leb d 64 then ok (zero_hash d) else err panic

  -- The goroutines of BuildParentTreeRootsWithNRoutines: the rounds left, the next `j`, the output.
  -- Each writes a part of the output of its own, so the order in which they run does not matter.
  unfoldable pub hash_segments : List Bytes → ℕ → ℕ → ℕ → List Bytes → List Bytes
  unfolding slice write_at
  hash_segments input group_size zero j output = output
  hash_segments input group_size (suc rounds) j output =
      let segment_start = j * (2 * group_size) in
      let segment_end = min (suc j * (2 * group_size)) (length input) in
      hash_segments input group_size rounds (suc j)
        (write_at (j * group_size) (h.hash_chunks (slice segment_start segment_end input)) output)

  -- BuildParentTreeRootsWithNRoutines: the part for large inputs, which starts n + 1 goroutines.
  unfoldable pub hash_in_parallel : List Bytes → ℕ → List Bytes
  unfolding hash_segments
  hash_in_parallel input n =
      hash_segments input (length input / (2 * max n 1)) (suc n) 0
        (replicate (length input / 2) zero_root)

  -- BuildParentTreeRootsWithNRoutines
  unfoldable pub build_parent_tree_roots_with_routines : List Bytes → ℕ → Result (List Bytes)
  unfolding hash_in_parallel
  build_parent_tree_roots_with_routines input n =
      if length input % 2 == 0
      then if ltb (length input) min_parallelization_size
        then ok (h.hash_chunks input)
        else ok (hash_in_parallel input n)
      else err odd_length_tree_roots

  -- The zero hash that both builders append to a layer of odd length.
  unfoldable pub pad_layer : ℕ → List Bytes → Result (List Bytes)
  unfolding zero_hash_at
  pad_layer d layer =
      if length layer % 2 == 1
      then bind_result (zero_hash_at d) (λ z. ok (layer ++ (z ∷ [])))
      else ok layer

-- Tree: `branches` are its layers, from the leaves up.
pub record Tree : Type 0 where
  pub depth : ℕ
  pub branches : List (List Bytes)
  pub leaves : List Bytes

-- verifySufficientDepth
unfoldable pub verify_sufficient_depth : ℕ → ℕ → Result Unit
verify_sufficient_depth num_leaves depth =
    if num_leaves == 0
    then err empty_leaves
    else if depth == 0
    then err zero_depth
    else if ltb max_tree_depth depth
    then err exceeded_depth
    else if ltb (2 ^ depth) num_leaves
    then err insufficient_depth_for_leaves
    else ok tt

-- index ^ 1: the other node of a pair.
unfoldable pub neighbor_index : ℕ → ℕ
neighbor_index i = if i % 2 == 0 then i + 1 else i - 1

-- Stores `item` at `i`, or at the end of a list that is not long enough.
unfoldable pub put_node : List Bytes → ℕ → Bytes → List Bytes
put_node [] i item = item ∷ []
put_node (x ∷ xs) zero item = item ∷ xs
put_node (x ∷ xs) (suc i) item = x ∷ put_node xs i item

-- `routines` is runtime.GOMAXPROCS(0) - 1.
module _ (h : Hasher) (routines : ℕ) where
  -- BuildParentTreeRoots
  unfoldable pub build_parent_tree_roots : List Bytes → Result (List Bytes)
  unfolding build_parent_tree_roots_with_routines
  build_parent_tree_roots input = build_parent_tree_roots_with_routines h input routines

  -- The round that both builders make of a layer at depth `d`: pad it, and hash it.
  unfoldable pub next_layer : ℕ → List Bytes → Result (List Bytes)
  unfolding build_parent_tree_roots pad_layer
  next_layer d layer = bind_result (pad_layer h d layer) build_parent_tree_roots

  -- The loop of NewRootWithDepth, over the rounds left.
  unfoldable pub root_rounds : ℕ → ℕ → List Bytes → Result (List Bytes)
  unfolding next_layer
  root_rounds zero d layer = ok layer
  root_rounds (suc rounds) d layer = bind_result (next_layer d layer) (root_rounds rounds (suc d))

  -- What NewRootWithDepth returns after the loop.
  unfoldable pub single_root : ℕ → List Bytes → Result Bytes
  unfolding zero_hash_at
  single_root depth [] = zero_hash_at h depth
  single_root depth (root ∷ []) = ok root
  single_root depth (root ∷ next ∷ rest) = zero_hash_at h depth

  -- NewRootWithDepth
  unfoldable pub new_root_with_depth : List Bytes → ℕ → Result Bytes
  unfolding root_rounds single_root zero_hash_at
  new_root_with_depth [] depth = zero_hash_at h depth
  new_root_with_depth (leaf ∷ leaves) depth =
      bind_result (root_rounds depth 0 (leaf ∷ leaves)) (single_root depth)

  -- The loop of NewTreeFromLeavesWithDepth: the layers from depth `d` up.
  unfoldable pub tree_layers : ℕ → ℕ → List Bytes → Result (List (List Bytes))
  unfolding next_layer
  tree_layers zero d layer = ok (layer ∷ [])
  tree_layers (suc rounds) d layer =
      bind_result (next_layer d layer)
        (λ parent. bind_result (tree_layers rounds (suc d) parent) (λ rest. ok (layer ∷ rest)))

  -- NewTreeFromLeavesWithDepth
  unfoldable pub new_tree_from_leaves_with_depth : List Bytes → ℕ → Result Tree
  unfolding verify_sufficient_depth tree_layers
  new_tree_from_leaves_with_depth leaves depth =
      bind_result (verify_sufficient_depth (length leaves) depth) (λ u.
        bind_result (tree_layers depth 0 leaves)
          (λ layers. ok (record { depth = depth; branches = layers; leaves = leaves })))
