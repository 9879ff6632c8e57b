-- ===== src/Merkle/Layers.antt =====
-- The layers of a tree as pure functions of its leaves, and the complete binary tree over leaves
-- that go on with zero hashes for ever, which the layers stand for.
use beacon_kit.Prelude.{
  ℕ, zero, suc, ◌+◌, ◌*◌, ◌/◌, ◌%◌, ◌≤◌, Bytes, List, [], ◌∷◌, ◌++◌, ◌==◌, ◌≡◌, arith, ◌∙◌, length,
  get_or, length-append, get_or-append_default, if◌then◌else◌,
}
use mathlib.Core.Path.{ap₂}
use beacon_kit.Exec.{ok}
use beacon_kit.Merkle.{
  Hasher, zero_hash, zero_hash_at, pad_layer, next_layer, build_parent_tree_roots,
}
use beacon_kit.Merkle.Parallel.{parallel_sequential, length-hash_chunks}

module _ (h : Hasher) where
  -- A layer at depth `d` with an even number of nodes.
  unfoldable pub padded : ℕ → List Bytes → List Bytes
  padded d xs = if length xs % 2 == 1 then xs ++ (zero_hash h d ∷ []) else xs

  -- The layer above.
  unfoldable pub parents : ℕ → List Bytes → List Bytes
  unfolding padded
  parents d xs = h.hash_chunks (padded d xs)

  -- The layers from depth `d` up.
  unfoldable pub layers_from : ℕ → ℕ → List Bytes → List (List Bytes)
  unfolding parents
  layers_from zero d xs = xs ∷ []
  layers_from (suc n) d xs = let above = layers_from n (suc d) (parents d xs) in xs ∷ above

  -- The layer `n` above one at depth `d`.
  unfoldable pub layer_above : ℕ → ℕ → List Bytes → List Bytes
  unfolding parents
  layer_above zero d xs = xs
  layer_above (suc n) d xs = layer_above n (suc d) (parents d xs)

  -- The node at `i`, `n` above the nodes `xs` of depth `d`.
  unfoldable pub node_above : ℕ → ℕ → List Bytes → ℕ → Bytes
  node_above zero d xs i = get_or xs i (zero_hash h d)
  node_above (suc n) d xs i =
      let left = node_above n d xs (2 * i) in
      let right = node_above n d xs (2 * i + 1) in h.sha256 left right

  pub length-padded : (d : ℕ) (xs : List Bytes) → length (padded d xs) ≡ 2 * ((length xs + 1) / 2)
  unfolding padded
  length-padded d xs = ground (arith, length-append xs (zero_hash h d ∷ []))

  pub length-parents : (d : ℕ) (xs : List Bytes) → length (parents d xs) ≡ (length xs + 1) / 2
  unfolding parents
  length-parents d xs =
      length-hash_chunks h ((length xs + 1) / 2) (padded d xs) (length-padded d xs)

  pub next_layer_eq :
      (routines d : ℕ) (xs : List Bytes)
      → routines ≤ 50
      → d ≤ 64
      → next_layer h routines d xs ≡ ok (parents d xs)
  unfolding next_layer pad_layer zero_hash_at build_parent_tree_roots padded parents
  next_layer_eq routines d xs r l =
      let hashed =
        parallel_sequential h (padded d xs) routines ((length xs + 1) / 2) (length-padded d xs) r in
      ground arith

  pub get_or-padded :
      (d i : ℕ) (xs : List Bytes)
      → get_or (padded d xs) i (zero_hash h d) ≡ get_or xs i (zero_hash h d)
  unfolding padded
  get_or-padded d i xs = ground (arith, get_or-append_default i xs (zero_hash h d))

  get_or-hash_chunks :
      (n i : ℕ) (z : Bytes) (xs : List Bytes)
      → length xs ≡ 2 * n
      → get_or (h.hash_chunks xs) i (h.sha256 z z)
        ≡ h.sha256 (get_or xs (2 * i) z) (get_or xs (2 * i + 1) z)
  get_or-hash_chunks n i z [] e = grind (arith, h.hash_chunks-nil)
  get_or-hash_chunks n i z (a ∷ []) e = grind arith
  get_or-hash_chunks zero i z (a ∷ b ∷ xs) e = grind arith
  get_or-hash_chunks (suc n) zero z (a ∷ b ∷ xs) e = grind (arith, h.hash_chunks-pair a b xs)
  get_or-hash_chunks (suc n) (suc i) z (a ∷ b ∷ xs) e =
      let left : 2 * suc i ≡ suc (suc (2 * i)) = omega arith in
      let right : 2 * suc i + 1 ≡ suc (suc (2 * i + 1)) = omega arith in
      grind (arith, h.hash_chunks-pair a b xs, get_or-hash_chunks n i z xs (omega arith))

  pub get_or-parents :
      (d i : ℕ) (xs : List Bytes)
      → get_or (parents d xs) i (zero_hash h (suc d))
        ≡ h.sha256 (get_or xs (2 * i) (zero_hash h d)) (get_or xs (2 * i + 1) (zero_hash h d))
  unfolding parents zero_hash
  get_or-parents d i xs =
      get_or-hash_chunks ((length xs + 1) / 2) i (zero_hash h d) (padded d xs) (length-padded d xs)
      ∙ ap₂ h.sha256 (get_or-padded d (2 * i) xs) (get_or-padded d (2 * i + 1) xs)

  pub node_above-parents :
      (n d i : ℕ) (xs : List Bytes)
      → node_above n (suc d) (parents d xs) i ≡ node_above (suc n) d xs i
  unfolding node_above
  node_above-parents zero d i xs = get_or-parents d i xs
  node_above-parents (suc n) d i xs =
      ap₂ h.sha256 (node_above-parents n d (2 * i) xs) (node_above-parents n d (2 * i + 1) xs)
