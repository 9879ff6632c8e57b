-- ===== src/Examples/Trees.antt =====
-- The theorems on Merkle trees, applied to trees over a stand-in for the hash.
use beacon_kit.Prelude.{
  ◌+◌, ◌*◌, Bytes, List, [], ◌∷◌, ◌≡◌, refl, arith, replicate, get_or, length-replicate, true, pos,
}
use beacon_kit.Exec.{ok, err, bind_result, insufficient_depth_for_leaves}
use beacon_kit.Merkle.{
  Hasher, build_parent_tree_roots_with_routines, new_root_with_depth,
  new_tree_from_leaves_with_depth, put_node,
}
use beacon_kit.Merkle.Branches.{root_of, merkle_proof, verify_proof}
use beacon_kit.Merkle.Insert.{insert}
use beacon_kit.Merkle.Parallel.{parallel_sequential}
use beacon_kit.Merkle.Roots.{Fits, new_root_with_depth-root_of, new_root_with_depth-overfull}
use beacon_kit.Merkle.Proofs.{merkle_proof_verifies}
use beacon_kit.Merkle.Updates.{insert_rebuilds}

abbrev pub mix : Bytes → Bytes → Bytes
mix a b = (3 * get_or a 0 0 + get_or b 0 0 + 1) ∷ []

abbrev pub mix_pairs : List Bytes → List Bytes
mix_pairs [] = []
mix_pairs (a ∷ []) = []
mix_pairs (a ∷ b ∷ rest) = mix a b ∷ mix_pairs rest

abbrev pub mixer : Hasher
mixer = record {
  sha256 = mix;
  hash_chunks = mix_pairs;
  hash_chunks-nil = refl;
  hash_chunks-pair = λ a b rest. refl;
}

abbrev three_leaves : List Bytes
three_leaves = (5 ∷ []) ∷ (6 ∷ []) ∷ (7 ∷ []) ∷ []

three_leaves-Fits : Fits three_leaves 3
three_leaves-Fits = record {
  some_leaf = omega arith;
  within = omega arith;
  above = omega arith;
  below = omega arith;
}

merkle_proof_verifies_example :
    bind_result (new_tree_from_leaves_with_depth mixer 7 three_leaves 3) (λ t.
      bind_result (root_of t) (λ root.
        bind_result (merkle_proof mixer t 2) (λ proof. verify_proof mixer root (7 ∷ []) 2 proof)))
    ≡ ok true
merkle_proof_verifies_example =
    merkle_proof_verifies mixer 7 3 2 three_leaves (omega arith) three_leaves-Fits (omega arith)

-- A fourth leaf after the three.
insert_rebuilds_example :
    bind_result
      (new_tree_from_leaves_with_depth mixer 7 three_leaves 3)
      (λ t. insert mixer t (8 ∷ []) (pos 3))
    ≡ new_tree_from_leaves_with_depth mixer 7 ((5 ∷ []) ∷ (6 ∷ []) ∷ (7 ∷ []) ∷ (8 ∷ []) ∷ []) 3
unfolding put_node
insert_rebuilds_example =
    insert_rebuilds mixer 7 3 3 three_leaves (8 ∷ []) (omega arith) three_leaves-Fits (omega arith)
      (omega arith)

new_root_with_depth-root_of_example :
    new_root_with_depth mixer 7 three_leaves 3
    ≡ bind_result (new_tree_from_leaves_with_depth mixer 7 three_leaves 3) root_of
new_root_with_depth-root_of_example =
    new_root_with_depth-root_of mixer 7 3 three_leaves (omega arith) three_leaves-Fits

-- Three leaves at depth 1.
new_root_with_depth-overfull_example :
    (new_tree_from_leaves_with_depth mixer 7 three_leaves 1 ≡ err insufficient_depth_for_leaves)
    × (new_root_with_depth mixer 7 three_leaves 1 ≡ new_root_with_depth mixer 7 [] 1)
new_root_with_depth-overfull_example =
    new_root_with_depth-overfull mixer 7 1 three_leaves (omega arith) (omega arith) (omega arith)
      (omega arith)

-- The smallest input that is split.
abbrev five_thousand : List Bytes
five_thousand = replicate 5000 (9 ∷ [])

parallel_sequential_example :
    build_parent_tree_roots_with_routines mixer five_thousand 7 ≡ ok (mix_pairs five_thousand)
parallel_sequential_example =
    parallel_sequential mixer five_thousand 7 2500 (length-replicate {A = Bytes} 5000 (9 ∷ []))
      (omega arith)
