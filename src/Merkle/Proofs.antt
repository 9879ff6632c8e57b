-- ===== src/Merkle/Proofs.antt =====
-- The branches that a tree gives out, against the check of a branch.
use beacon_kit.Prelude.{
  ℕ, zero, suc, ◌+◌, ◌-◌, ◌*◌, ◌/◌, ◌%◌, ◌^◌, ◌≤◌, ◌<◌, Bytes, List, [], ◌∷◌, ◌==◌, ◌≡◌, arith, ap,
  sym, refl, ◌∙◌, length, get_or, if◌then◌else◌, true, false, bytes_eq_refl, Bool-cases, inl, inr,
}
use native.Mathlib.Nat.{div-div-eq-div-mul, div-eq_of_lt, pow-suc}
use beacon_kit.Exec.{ok, bind_result}
use beacon_kit.Types.{zero_root}
use beacon_kit.Merkle.{Hasher, zero_hash, neighbor_index, new_tree_from_leaves_with_depth}
use beacon_kit.Merkle.Layers.{layers_from, node_above, node_above-parents, get_or-parents, parents}
use beacon_kit.Merkle.Roots.{
  new_tree_from_leaves_with_depth-tree_of, root_of-tree_of, Fits, tree_of,
}
use beacon_kit.Merkle.Branches.{
  merkle_proof, proof_within, root_of, proof_rounds, branch_rounds, root_from_branch,
  is_valid_merkle_branch, verify_proof,
}

module _ (h : Hasher) where
  -- The neighbours, from the bottom up, of the path from the node at `i` of the layer `xs`.
  unfoldable pub siblings : ℕ → ℕ → ℕ → List Bytes → List Bytes
  siblings i zero d xs = []
  siblings i (suc n) d xs =
      let above = siblings i n (suc d) (parents h d xs) in
      get_or xs (neighbor_index (i / 2 ^ d)) (zero_hash h d) ∷ above

  proof_rounds-siblings :
      (i n d : ℕ) (xs : List Bytes)
      → proof_rounds h i n d (layers_from h n d xs) ≡ ok (siblings i n d xs)
  unfolding proof_rounds layers_from siblings
  proof_rounds-siblings i zero d xs = refl
  proof_rounds-siblings i (suc n) d xs =
      let rest = proof_rounds-siblings i n (suc d) (parents h d xs) in ground arith

  pub length-siblings : (i n d : ℕ) (xs : List Bytes) → length (siblings i n d xs) ≡ n
  unfolding siblings
  length-siblings i zero d xs = refl
  length-siblings i (suc n) d xs = ap suc (length-siblings i n (suc d) (parents h d xs))

  -- Hashing a node with its neighbour gives the parent.
  hash_pair :
      (j d : ℕ) (xs : List Bytes) (node : Bytes)
      → node ≡ get_or xs j (zero_hash h d)
      → (if j % 2 == 1
          then h.sha256 (get_or xs (neighbor_index j) (zero_hash h d)) node
          else h.sha256 node (get_or xs (neighbor_index j) (zero_hash h d)))
        ≡ get_or (parents h d xs) (j / 2) (zero_hash h (suc d))
  unfolding neighbor_index
  hash_pair j d xs node e =
      let up = get_or-parents h d (j / 2) xs in
      elim (Bool-cases (j % 2 == 1)) [
        | inl odd ↦
            let left : 2 * (j / 2) ≡ j - 1 = ground arith in
            let right : 2 * (j / 2) + 1 ≡ j = ground arith in
            let side : (j % 2 == 0) ≡ false = ground arith in grind arith
        | inr even ↦
            let left : 2 * (j / 2) ≡ j = ground arith in
            let right : 2 * (j / 2) + 1 ≡ j + 1 = ground arith in
            let side : (j % 2 == 0) ≡ true = ground arith in grind arith
      ]

  branch_rounds-siblings :
      (i n d : ℕ) (xs : List Bytes) (node : Bytes)
      → node ≡ get_or xs (i / 2 ^ d) (zero_hash h d)
      → branch_rounds h i n d (siblings i n d xs) node ≡ ok (node_above h n d xs (i / 2 ^ (d + n)))
  unfolding branch_rounds siblings node_above
  branch_rounds-siblings i zero d xs node e =
      let same : d ≡ d + 0 = omega arith in
      ap ok (e ∙ ap (λ k. get_or xs (i / 2 ^ k) (zero_hash h d)) same)
  branch_rounds-siblings i (suc n) d xs node e =
      let paired = hash_pair (i / 2 ^ d) d xs node e in
      let halved : i / 2 ^ d / 2 ≡ i / 2 ^ suc d =
        div-div-eq-div-mul i (2 ^ d) 2 ∙ ap (λ k. i / k) (sym (pow-suc 2 d)) in
      let shifted : suc d + n ≡ d + suc n = omega arith in
      let rest =
        branch_rounds-siblings i n (suc d) (parents h d xs) _
          (paired ∙ ap (λ k. get_or (parents h d xs) k (zero_hash h (suc d))) halved) in
      rest
      ∙ ap ok (
          node_above-parents h n d (i / 2 ^ (suc d + n)) xs
          ∙ ap (λ k. node_above h (suc n) d xs (i / 2 ^ k)) shifted)

  -- The branch that a built tree gives out for a leaf.
  pub merkle_proof-siblings :
      (depth index : ℕ) (leaves : List Bytes)
      → index < length leaves
      → merkle_proof h (tree_of h leaves depth) index ≡ ok (siblings index depth 0 leaves)
  unfolding merkle_proof proof_within tree_of layers_from
  merkle_proof-siblings zero index leaves l =
      let rounds = proof_rounds-siblings index 0 0 leaves in ground arith
  merkle_proof-siblings (suc depth) index leaves l =
      let rounds = proof_rounds-siblings index (suc depth) 0 leaves in ground arith

  pub root_from_branch-siblings :
      (depth index : ℕ) (leaves : List Bytes)
      → index < 2 ^ depth
      → root_from_branch h
          (get_or leaves index zero_root)
          (siblings index depth 0 leaves)
          depth
          index
        ≡ ok (node_above h depth 0 leaves 0)
  unfolding root_from_branch zero_hash
  root_from_branch-siblings depth index leaves l =
      let whole : index ≡ index / 2 ^ 0 = omega arith in
      let same : 0 + depth ≡ depth = omega arith in
      let top : index / 2 ^ (0 + depth) ≡ 0 = ap (λ k. index / 2 ^ k) same ∙ div-eq_of_lt l in
      branch_rounds-siblings index depth 0 leaves (get_or leaves index zero_root)
        (ap (λ k. get_or leaves k zero_root) whole)
      ∙ ap (λ k. ok (node_above h depth 0 leaves k)) top

  verify_proof-siblings :
      (depth index : ℕ) (leaves : List Bytes)
      → index < length leaves
      → Fits leaves depth
      → verify_proof h
          (node_above h depth 0 leaves 0)
          (get_or leaves index zero_root)
          index
          (siblings index depth 0 leaves)
        ≡ ok true
  unfolding verify_proof is_valid_merkle_branch
  verify_proof-siblings depth index leaves l f =
      let sized = length-siblings index depth 0 leaves in
      let hashed = root_from_branch-siblings depth index leaves (omega (arith, f.within)) in
      let same = bytes_eq_refl (node_above h depth 0 leaves 0) in
      let small : depth ≤ 62 = f.below in grind arith

  -- For leaves that fit a depth from 1 to 62, at most 50 routines and an index of a leaf: the tree
  -- is built, gives out a branch for that leaf, and the branch is accepted against the tree's root.
  pub merkle_proof_verifies :
      (routines depth index : ℕ) (leaves : List Bytes)
      → routines ≤ 50
      → Fits leaves depth
      → index < length leaves
      → bind_result (new_tree_from_leaves_with_depth h routines leaves depth) (λ t.
        bind_result (root_of t) (λ root.
          bind_result
            (merkle_proof h t index)
            (λ proof. verify_proof h root (get_or leaves index zero_root) index proof)))
        ≡ ok true
  merkle_proof_verifies routines depth index leaves r f l =
      let built = new_tree_from_leaves_with_depth-tree_of h routines depth leaves r f in
      let root = root_of-tree_of h depth leaves f in
      let proof = merkle_proof-siblings depth index leaves l in
      let verified = verify_proof-siblings depth index leaves l f in
      rw built (rw root (rw proof verified))
