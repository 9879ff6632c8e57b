-- ===== src/Merkle/Roots.antt =====
-- The two builders of a root against the root of the complete binary tree over the leaves.
use beacon_kit.Prelude.{
  ℕ, zero, suc, ◌+◌, ◌^◌, ◌≤◌, ◌<◌, Bytes, List, [], ◌∷◌, ◌≡◌, arith, ap, sym, refl, ◌∙◌, length,
  get_last?, some,
}
use beacon_kit.Exec.{ok, err, bind_result, insufficient_depth_for_leaves}
use beacon_kit.Merkle.{
  Hasher, Tree, zero_hash_at, root_rounds, tree_layers, single_root, new_root_with_depth,
  new_tree_from_leaves_with_depth, verify_sufficient_depth, max_tree_depth,
}
use beacon_kit.Merkle.Layers.{
  layers_from, layer_above, node_above, node_above-parents, next_layer_eq, length-parents, parents,
}
use beacon_kit.Merkle.Branches.{root_of, first_node}

-- Leaves that a tree of the depth can be built from.
pub record Fits (leaves : List Bytes) (depth : ℕ) : Type 0 where
  pub some_leaf : 1 ≤ length leaves
  pub within : length leaves ≤ 2 ^ depth
  pub above : 1 ≤ depth
  pub below : depth ≤ max_tree_depth

verify_sufficient_depth-Fits :
    (n depth : ℕ)
    → 1 ≤ n
    → n ≤ 2 ^ depth
    → 1 ≤ depth
    → depth ≤ max_tree_depth
    → verify_sufficient_depth n depth ≡ ok tt
unfolding verify_sufficient_depth
verify_sufficient_depth-Fits n depth l u a b = ground arith

verify_sufficient_depth_overfull :
    (n depth : ℕ)
    → 2 ^ depth < n
    → 1 ≤ depth
    → depth ≤ max_tree_depth
    → verify_sufficient_depth n depth ≡ err insufficient_depth_for_leaves
unfolding verify_sufficient_depth
verify_sufficient_depth_overfull n depth o a b = ground arith

module _ (h : Hasher) where
  tree_layers-layers_from :
      (routines n d : ℕ) (xs : List Bytes)
      → routines ≤ 50
      → d + n ≤ 64
      → tree_layers h routines n d xs ≡ ok (layers_from h n d xs)
  unfolding tree_layers layers_from
  tree_layers-layers_from routines zero d xs r l = refl
  tree_layers-layers_from routines (suc n) d xs r l =
      let step = next_layer_eq h routines d xs r (omega arith) in
      let rest = tree_layers-layers_from routines n (suc d) (parents h d xs) r (omega arith) in
      ground arith

  root_rounds-layer_above :
      (routines n d : ℕ) (xs : List Bytes)
      → routines ≤ 50
      → d + n ≤ 64
      → root_rounds h routines n d xs ≡ ok (layer_above h n d xs)
  unfolding root_rounds layer_above
  root_rounds-layer_above routines zero d xs r l = refl
  root_rounds-layer_above routines (suc n) d xs r l =
      let step = next_layer_eq h routines d xs r (omega arith) in
      let rest = root_rounds-layer_above routines n (suc d) (parents h d xs) r (omega arith) in
      ground arith

  get_last?-layers_from :
      (n d : ℕ) (xs : List Bytes) → get_last? (layers_from h n d xs) ≡ some (layer_above h n d xs)
  unfolding layers_from layer_above
  get_last?-layers_from zero d xs = refl
  get_last?-layers_from (suc zero) d xs = refl
  get_last?-layers_from (suc (suc n)) d xs = get_last?-layers_from (suc n) (suc d) (parents h d xs)

  layer_above_single :
      (n d : ℕ) (xs : List Bytes)
      → 1 ≤ length xs
      → length xs ≤ 2 ^ n
      → layer_above h n d xs ≡ node_above h n d xs 0 ∷ []
  unfolding layer_above node_above
  layer_above_single zero d [] l u = grind arith
  layer_above_single zero d (x ∷ []) l u = refl
  layer_above_single zero d (x ∷ y ∷ xs) l u = grind arith
  layer_above_single (suc n) d xs l u =
      let sized = length-parents h d xs in
      layer_above_single n (suc d) (parents h d xs) (omega arith) (omega arith)
      ∙ ap (λ r. r ∷ []) (node_above-parents h n d 0 xs)

  layer_above_several :
      (n d : ℕ) (xs : List Bytes) → 2 ^ n < length xs → 2 ≤ length (layer_above h n d xs)
  unfolding layer_above
  layer_above_several zero d xs l = omega arith
  layer_above_several (suc n) d xs l =
      let sized = length-parents h d xs in
      layer_above_several n (suc d) (parents h d xs) (omega arith)

  -- The tree that is built over leaves that fit.
  unfoldable pub tree_of : List Bytes → ℕ → Tree
  unfolding layers_from
  tree_of leaves depth = record {
    depth = depth;
    branches = layers_from h depth 0 leaves;
    leaves = leaves;
  }

  pub new_tree_from_leaves_with_depth-tree_of :
      (routines depth : ℕ) (leaves : List Bytes)
      → routines ≤ 50
      → Fits leaves depth
      → new_tree_from_leaves_with_depth h routines leaves depth ≡ ok (tree_of leaves depth)
  unfolding new_tree_from_leaves_with_depth tree_of
  new_tree_from_leaves_with_depth-tree_of routines depth leaves r f =
      let layers = tree_layers-layers_from routines depth 0 leaves r (omega (arith, f.below)) in
      let verified =
        verify_sufficient_depth-Fits (length leaves) depth f.some_leaf f.within f.above f.below in
      grind arith

  pub root_of-tree_of :
      (depth : ℕ) (leaves : List Bytes)
      → Fits leaves depth
      → root_of (tree_of leaves depth) ≡ ok (node_above h depth 0 leaves 0)
  unfolding root_of first_node tree_of
  root_of-tree_of depth leaves f =
      let last = get_last?-layers_from depth 0 leaves in
      let single = layer_above_single depth 0 leaves f.some_leaf f.within in ground arith

  -- For at least one leaf and at most 2 ^ depth, at a depth from 1 to 62, and at most 50 routines:
  -- the tree is built, and its root is that of the complete binary tree of that depth whose leaves
  -- are the given ones followed by zeros.
  pub tree_root_complete :
      (routines depth : ℕ) (leaves : List Bytes)
      → routines ≤ 50
      → Fits leaves depth
      → bind_result (new_tree_from_leaves_with_depth h routines leaves depth) root_of
        ≡ ok (node_above h depth 0 leaves 0)
  tree_root_complete routines depth leaves r f =
      ap (λ t. bind_result t root_of)
        (new_tree_from_leaves_with_depth-tree_of routines depth leaves r f)
      ∙ root_of-tree_of depth leaves f

  pub new_root_with_depth-node_above :
      (routines depth : ℕ) (leaves : List Bytes)
      → routines ≤ 50
      → depth ≤ 64
      → 1 ≤ length leaves
      → length leaves ≤ 2 ^ depth
      → new_root_with_depth h routines leaves depth ≡ ok (node_above h depth 0 leaves 0)
  unfolding new_root_with_depth single_root
  new_root_with_depth-node_above routines depth [] r d l u = grind arith
  new_root_with_depth-node_above routines depth (x ∷ xs) r d l u =
      let rounds = root_rounds-layer_above routines depth 0 (x ∷ xs) r (omega arith) in
      let single = layer_above_single depth 0 (x ∷ xs) l u in grind arith

  -- For at least one leaf and at most 2 ^ depth, at a depth from 1 to 62, and at most 50 routines:
  -- the root computed without a tree is the root of the tree.
  pub new_root_with_depth-root_of :
      (routines depth : ℕ) (leaves : List Bytes)
      → routines ≤ 50
      → Fits leaves depth
      → new_root_with_depth h routines leaves depth
        ≡ bind_result (new_tree_from_leaves_with_depth h routines leaves depth) root_of
  new_root_with_depth-root_of routines depth leaves r f =
      new_root_with_depth-node_above routines depth leaves r (omega (arith, f.below)) f.some_leaf
        f.within
      ∙ sym (tree_root_complete routines depth leaves r f)

  single_root-several :
      (routines depth : ℕ) (xs : List Bytes)
      → 2 ≤ length xs
      → single_root h routines depth xs ≡ zero_hash_at h depth
  unfolding single_root
  single_root-several routines depth [] l = grind arith
  single_root-several routines depth (x ∷ []) l = grind arith
  single_root-several routines depth (x ∷ y ∷ xs) l = refl

  new_tree_from_leaves_with_depth-overfull :
      (routines depth : ℕ) (leaves : List Bytes)
      → 2 ^ depth < length leaves
      → 1 ≤ depth
      → depth ≤ max_tree_depth
      → new_tree_from_leaves_with_depth h routines leaves depth ≡ err insufficient_depth_for_leaves
  unfolding new_tree_from_leaves_with_depth
  new_tree_from_leaves_with_depth-overfull routines depth leaves o l u =
      let refused = verify_sufficient_depth_overfull (length leaves) depth o l u in grind arith

  -- More than 2 ^ depth leaves, at a depth from 1 to 62, with at most 50 routines: no tree is
  -- built, but the root computed without one is that of the empty list, with no error.
  pub new_root_with_depth-overfull :
      (routines depth : ℕ) (leaves : List Bytes)
      → routines ≤ 50
      → 1 ≤ depth
      → depth ≤ max_tree_depth
      → 2 ^ depth < length leaves
      → (new_tree_from_leaves_with_depth h routines leaves depth
          ≡ err insufficient_depth_for_leaves)
        × (new_root_with_depth h routines leaves depth ≡ new_root_with_depth h routines [] depth)
  unfolding new_root_with_depth new_tree_from_leaves_with_depth
  new_root_with_depth-overfull routines depth [] r l u o = grind arith
  new_root_with_depth-overfull routines depth (x ∷ xs) r l u o =
      let rounds = root_rounds-layer_above routines depth 0 (x ∷ xs) r (omega arith) in
      let several =
        single_root-several routines depth (layer_above h depth 0 (x ∷ xs))
          (layer_above_several depth 0 (x ∷ xs) o) in
      (
        new_tree_from_leaves_with_depth-overfull routines depth (x ∷ xs) o l u,
        ap (λ s. bind_result s (single_root h routines depth)) rounds ∙ several,
      )
