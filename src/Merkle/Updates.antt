-- ===== src/Merkle/Updates.antt =====
-- Insert against building the tree again over the changed leaves.
use beacon_kit.Prelude.{
  ℕ, zero, suc, ◌/◌, ◌%◌, ◌^◌, ◌≤◌, ◌<◌, max, Bytes, List, [], ◌∷◌, ◌++◌, ◌≡◌, arith, ap, sym, refl,
  ◌∙◌, length, pos,
}
use beacon_kit.Exec.{ok, bind_result}
use beacon_kit.Merkle.{Hasher, zero_hash, neighbor_index, put_node, new_tree_from_leaves_with_depth}
use beacon_kit.Merkle.Layers.{layers_from, parents, padded, length-parents}
use beacon_kit.Merkle.Roots.{Fits, tree_of, new_tree_from_leaves_with_depth-tree_of}
use beacon_kit.Merkle.Insert.{fill_node, parent_node, insert_rounds, insert_layers, insert}

fill_node-put_node :
    (xs : List Bytes) (i : ℕ) (item : Bytes)
    → i ≤ length xs
    → fill_node xs i item ≡ put_node xs i item
unfolding fill_node put_node
fill_node-put_node [] zero item l = refl
fill_node-put_node [] (suc i) item l = grind arith
fill_node-put_node (x ∷ xs) zero item l = refl
fill_node-put_node (x ∷ xs) (suc i) item l =
    ap (λ r. x ∷ r) (fill_node-put_node xs i item (omega arith))

module _ (h : Hasher) where
  parents-nil : (d : ℕ) → parents h d [] ≡ []
  unfolding parents padded
  parents-nil d = h.hash_chunks-nil

  parents-single : (d : ℕ) (a : Bytes) → parents h d (a ∷ []) ≡ h.sha256 a (zero_hash h d) ∷ []
  unfolding parents padded
  parents-single d a = grind (arith, h.hash_chunks-nil, h.hash_chunks-pair a (zero_hash h d) [])

  parents-pair :
      (d : ℕ) (a b : Bytes) (xs : List Bytes)
      → parents h d (a ∷ b ∷ xs) ≡ h.sha256 a b ∷ parents h d xs
  unfolding parents padded
  parents-pair d a b xs =
      ground (arith, h.hash_chunks-pair a b xs, h.hash_chunks-pair a b (xs ++ (zero_hash h d ∷ [])))

  neighbor_index-pair : (i : ℕ) → neighbor_index (suc (suc i)) ≡ suc (suc (neighbor_index i))
  unfolding neighbor_index
  neighbor_index-pair i = ground arith

  parent_node-pair :
      (d i : ℕ) (a b : Bytes) (xs : List Bytes) (node : Bytes)
      → parent_node h d (suc (suc i)) (a ∷ b ∷ xs) node ≡ parent_node h d i xs node
  unfolding parent_node
  parent_node-pair d i a b xs node =
      let parity : suc (suc i) % 2 ≡ i % 2 = omega arith in
      let beside = neighbor_index-pair i in ground arith

  parents-put_node :
      (d i : ℕ) (xs : List Bytes) (node : Bytes)
      → i ≤ length xs
      → parents h d (put_node xs i node)
        ≡ put_node (parents h d xs) (i / 2) (parent_node h d i (put_node xs i node) node)
  unfolding put_node parent_node neighbor_index
  parents-put_node d zero [] node l = grind (arith, parents-nil d, parents-single d node)
  parents-put_node d (suc i) [] node l = grind arith
  parents-put_node d zero (a ∷ []) node l = grind (arith, parents-single d a, parents-single d node)
  parents-put_node d (suc zero) (a ∷ []) node l =
      grind (arith, parents-nil d, parents-single d a, parents-pair d a node [])
  parents-put_node d (suc (suc i)) (a ∷ []) node l = grind arith
  parents-put_node d zero (a ∷ b ∷ xs) node l =
      grind (arith, parents-pair d a b xs, parents-pair d node b xs)
  parents-put_node d (suc zero) (a ∷ b ∷ xs) node l =
      grind (arith, parents-pair d a b xs, parents-pair d a node xs)
  parents-put_node d (suc (suc i)) (a ∷ b ∷ xs) node l =
      let half : suc (suc i) / 2 ≡ suc (i / 2) = omega arith in
      let rest = parents-put_node d i xs node (omega arith) in
      grind (
        arith,
        parents-pair d a b xs,
        parents-pair d a b (put_node xs i node),
        parent_node-pair d i a b (put_node xs i node) node,
      )

  -- The layers above the lowest one.
  unfoldable layers_over : ℕ → ℕ → List Bytes → List (List Bytes)
  unfolding layers_from
  layers_over zero d xs = []
  layers_over (suc n) d xs = layers_from h n (suc d) (parents h d xs)

  layers_from-layers_over :
      (n d : ℕ) (xs : List Bytes) → layers_from h n d xs ≡ xs ∷ layers_over n d xs
  unfolding layers_from layers_over
  layers_from-layers_over zero d xs = refl
  layers_from-layers_over (suc n) d xs = refl

  insert_rounds-layers_from :
      (n d i : ℕ) (xs : List Bytes) (node : Bytes)
      → i ≤ length xs
      → insert_rounds h n d i node (put_node xs i node) (layers_over n d xs)
        ≡ ok (layers_from h n d (put_node xs i node))
  unfolding insert_rounds layers_over layers_from
  insert_rounds-layers_from zero d i xs node l = refl
  insert_rounds-layers_from (suc n) d i xs node l =
      let over = layers_from-layers_over n (suc d) (parents h d xs) in
      let sized = length-parents h d xs in
      let changed = parents-put_node d i xs node l in
      let rest =
        insert_rounds-layers_from n (suc d) (i / 2) (parents h d xs)
          (parent_node h d i (put_node xs i node) node) (omega arith) in
      rw over (rw rest (rw changed refl))

  insert-tree_of :
      (depth index : ℕ) (leaves : List Bytes) (item : Bytes)
      → index ≤ length leaves
      → insert h (tree_of h leaves depth) item (pos index)
        ≡ ok (tree_of h (put_node leaves index item) depth)
  unfolding insert insert_layers tree_of
  insert-tree_of depth index leaves item l =
      let over = layers_from-layers_over depth 0 leaves in
      let filled = fill_node-put_node leaves index item l in
      let rounds = insert_rounds-layers_from depth 0 index leaves item l in
      rw over (rw filled (rw rounds refl))

  length-put_node :
      (xs : List Bytes) (i : ℕ) (item : Bytes)
      → i ≤ length xs
      → length (put_node xs i item) ≡ max (length xs) (suc i)
  unfolding put_node
  length-put_node [] i item l = omega arith
  length-put_node (x ∷ xs) zero item l = omega arith
  length-put_node (x ∷ xs) (suc i) item l = omega (arith, length-put_node xs i item (omega arith))

  -- For leaves that fit a depth from 1 to 62 and at most 50 routines: to store a leaf at the place of
  -- one that is there, or right after the last while there is room, gives the tree that is built over
  -- the changed leaves.
  pub insert_rebuilds :
      (routines depth index : ℕ) (leaves : List Bytes) (item : Bytes)
      → routines ≤ 50
      → Fits leaves depth
      → index ≤ length leaves
      → index < 2 ^ depth
      → bind_result
          (new_tree_from_leaves_with_depth h routines leaves depth)
          (λ t. insert h t item (pos index))
        ≡ new_tree_from_leaves_with_depth h routines (put_node leaves index item) depth
  insert_rebuilds routines depth index leaves item r f l u =
      let sized = length-put_node leaves index item l in
      let fits : Fits (put_node leaves index item) depth = record {
        some_leaf = omega arith;
        within = omega (arith, f.within);
        above = f.above;
        below = f.below;
      } in
      rw (new_tree_from_leaves_with_depth-tree_of h routines depth leaves r f) (
        insert-tree_of depth index leaves item l
        ∙ sym (
            new_tree_from_leaves_with_depth-tree_of h routines depth (put_node leaves index item) r
              fits))
