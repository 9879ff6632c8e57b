-- ===== src/Merkle/Insert.antt =====
-- mod/primitives/pkg/merkle/tree.go: Insert, which stores a leaf and hashes its path again.
use beacon_kit.Prelude.{
  ℕ, zero, suc, ◌/◌, ◌%◌, ◌==◌, Bytes, List, [], ◌∷◌, if◌then◌else◌, get_or, ℤ, pos, negsuc,
}
use beacon_kit.Exec.{Result, ok, err, bind_result, panic, negative_index}
use beacon_kit.Types.{zero_root}
use beacon_kit.Merkle.{Hasher, Tree, zero_hash, neighbor_index, put_node}

-- branches[0] padded with zero hashes up to `index`, with `item` stored there.
unfoldable pub fill_node : List Bytes → ℕ → Bytes → List Bytes
fill_node [] zero item = item ∷ []
fill_node [] (suc i) item = zero_root ∷ fill_node [] i item
fill_node (x ∷ xs) zero item = item ∷ xs
fill_node (x ∷ xs) (suc i) item = x ∷ fill_node xs i item

module _ (h : Hasher) where
  -- The parent of `node` at `i` and its neighbour in `layer`, at depth `d`.
  unfoldable pub parent_node : ℕ → ℕ → List Bytes → Bytes → Bytes
  unfolding neighbor_index zero_hash
  parent_node d i layer node =
      let neighbor = get_or layer (neighbor_index i) (zero_hash h d) in
      if i % 2 == 0 then h.sha256 node neighbor else h.sha256 neighbor node

  -- The loop of Insert: the rounds left, the depth, the current index and root, the layer at that
  -- depth and those above it.
  unfoldable pub insert_rounds :
      ℕ → ℕ → ℕ → Bytes → List Bytes → List (List Bytes) → Result (List (List Bytes))
  unfolding parent_node put_node
  insert_rounds zero d i root layer above = ok (layer ∷ above)
  insert_rounds (suc rounds) d i root layer [] = err panic
  insert_rounds (suc rounds) d i root layer (next ∷ above) =
      let parent = parent_node d i layer root in
      bind_result (insert_rounds rounds (suc d) (i / 2) parent (put_node next (i / 2) parent) above)
        (λ rest. ok (layer ∷ rest))

  -- The layers of a tree after Insert.
  unfoldable pub insert_layers : ℕ → ℕ → Bytes → List (List Bytes) → Result (List (List Bytes))
  unfolding insert_rounds fill_node
  insert_layers depth index item [] = err panic
  insert_layers depth index item (layer ∷ above) =
      insert_rounds depth 0 index item (fill_node layer index item) above

  -- Insert
  unfoldable pub insert : Tree → Bytes → ℤ → Result Tree
  unfolding insert_layers put_node
  insert t item (negsuc n) = err negative_index
  insert t item (pos index) = bind_result (insert_layers t.depth index item t.branches) (λ layers.
      ok (record { depth = t.depth; branches = layers; leaves = put_node t.leaves index item }))
