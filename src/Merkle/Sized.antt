-- ===== src/Merkle/Sized.antt =====
-- mod/primitives/pkg/merkle: trees and roots over as many leaves as a limit allows.
use beacon_kit.Prelude.{ℕ, Bytes, List, length}
use beacon_kit.Exec.{Result, bind_result}
use beacon_kit.Math.{next_power_of_two, ilog2_ceil}
use beacon_kit.Merkle.{Hasher, Tree, new_tree_from_leaves_with_depth, new_root_with_depth}

-- U64(n).NextPowerOfTwo().ILog2Ceil()
unfoldable pub depth_for : ℕ → Result ℕ
depth_for n = bind_result (next_power_of_two n) (λ p. Result.ok (ilog2_ceil p))

module _ (h : Hasher) (routines : ℕ) where
  -- NewTreeFromLeaves
  unfoldable pub new_tree_from_leaves : List Bytes → Result Tree
  unfolding depth_for
  new_tree_from_leaves leaves =
      bind_result (depth_for (length leaves)) (new_tree_from_leaves_with_depth h routines leaves)

  -- NewTreeWithMaxLeaves
  unfoldable pub new_tree_with_max_leaves : List Bytes → ℕ → Result Tree
  unfolding depth_for
  new_tree_with_max_leaves leaves max_leaves =
      bind_result (depth_for max_leaves) (new_tree_from_leaves_with_depth h routines leaves)

  -- NewRootWithMaxLeaves
  unfoldable pub new_root_with_max_leaves : List Bytes → ℕ → Result Bytes
  unfolding depth_for
  new_root_with_max_leaves leaves max_leaves =
      bind_result (depth_for max_leaves) (new_root_with_depth h routines leaves)
