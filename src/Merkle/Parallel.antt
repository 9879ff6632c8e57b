-- ===== src/Merkle/Parallel.antt =====
-- BuildParentTreeRootsWithNRoutines against the sequential hash: what its goroutines fill, and
-- what they leave.
use beacon_kit.Prelude.{
  ℕ, zero, suc, ◌+◌, ◌-◌, ◌*◌, ◌/◌, ◌≤◌, ◌<◌, min, max, Bytes, List, [], ◌∷◌, ◌++◌, ltb, ◌≡◌, arith,
  ap, ◌∙◌, length, take, drop, replicate, slice, write_at, write_at-prefix, take-min, length-drop,
  take_all, append-nil, Bool-cases, inl, inr, take_nil, drop_nil,
}
use native.Mathlib.Nat.{div-mul-le_self, mul-le-mul_right, lt-div-mul-add, le-div_iff_mul-le}
use beacon_kit.Exec.{ok}
use beacon_kit.Types.{zero_root}
use beacon_kit.Merkle.{
  Hasher, hash_segments, hash_in_parallel, build_parent_tree_roots_with_routines,
  min_parallelization_size,
}

module _ (h : Hasher) where
  pub length-hash_chunks :
      (n : ℕ) (xs : List Bytes) → length xs ≡ 2 * n → length (h.hash_chunks xs) ≡ n
  length-hash_chunks zero [] e = grind (arith, h.hash_chunks-nil)
  length-hash_chunks (suc n) [] e = omega arith
  length-hash_chunks zero (a ∷ xs) e = omega arith
  length-hash_chunks n (a ∷ []) e = omega arith
  length-hash_chunks (suc n) (a ∷ b ∷ xs) e =
      grind (arith, h.hash_chunks-pair a b xs, length-hash_chunks n xs (omega arith))

  hash_chunks-drop :
      (s n : ℕ) (xs : List Bytes)
      → length xs ≡ 2 * n
      → h.hash_chunks (drop (2 * s) xs) ≡ drop s (h.hash_chunks xs)
  hash_chunks-drop zero n xs e = grind arith
  hash_chunks-drop (suc s) n [] e =
      grind (arith, h.hash_chunks-nil, drop_nil {A = Bytes} (2 * suc s))
  hash_chunks-drop (suc s) n (a ∷ []) e = grind arith
  hash_chunks-drop (suc s) zero (a ∷ b ∷ xs) e = grind arith
  hash_chunks-drop (suc s) (suc n) (a ∷ b ∷ xs) e =
      let double : 2 * suc s ≡ suc (suc (2 * s)) = omega arith in
      grind (arith, h.hash_chunks-pair a b xs, hash_chunks-drop s n xs (omega arith))

  hash_chunks-take :
      (s n : ℕ) (xs : List Bytes)
      → length xs ≡ 2 * n
      → h.hash_chunks (take (2 * s) xs) ≡ take s (h.hash_chunks xs)
  hash_chunks-take zero n xs e = grind (arith, h.hash_chunks-nil)
  hash_chunks-take (suc s) n [] e =
      grind (arith, h.hash_chunks-nil, take_nil {A = Bytes} (2 * suc s))
  hash_chunks-take (suc s) n (a ∷ []) e = grind arith
  hash_chunks-take (suc s) zero (a ∷ b ∷ xs) e = grind arith
  hash_chunks-take (suc s) (suc n) (a ∷ b ∷ xs) e =
      let double : 2 * suc s ≡ suc (suc (2 * s)) = omega arith in
      grind (
        arith,
        h.hash_chunks-pair a b xs,
        h.hash_chunks-pair a b (take (2 * s) xs),
        hash_chunks-take s n xs (omega arith),
      )

  -- The digests that the goroutine `j` writes.
  hash_chunks-slice :
      (g j n : ℕ) (xs : List Bytes)
      → length xs ≡ 2 * n
      → j * g ≤ n
      → h.hash_chunks (slice (j * (2 * g)) (min (suc j * (2 * g)) (length xs)) xs)
        ≡ take g (drop (j * g) (h.hash_chunks xs))
  unfolding slice
  hash_chunks-slice g j n xs e l =
      let start : j * (2 * g) ≡ 2 * (j * g) = omega arith in
      let next : suc j * (2 * g) ≡ 2 * (j * g) + 2 * g = omega arith in
      let rest = drop (j * (2 * g)) xs in
      let sized : length rest ≡ 2 * (n - j * g) = omega (arith, length-drop (j * (2 * g)) xs) in
      let cut : min (suc j * (2 * g)) (length xs) - j * (2 * g) ≡ min (2 * g) (length rest) =
        omega (arith, length-drop (j * (2 * g)) xs) in
      ap (λ k. h.hash_chunks (take k rest)) cut
      ∙ ap h.hash_chunks (take-min (2 * g) rest)
      ∙ hash_chunks-take g (n - j * g) rest sized
      ∙ ap (λ k. take g (h.hash_chunks (drop k xs))) start
      ∙ ap (take g) (hash_chunks-drop (j * g) n xs e)

  same_prefix :
      (a b m k : ℕ) (xs : List Bytes)
      → a ≡ b
      → m ≡ k
      → take a xs ++ replicate m zero_root ≡ take b xs ++ replicate k zero_root
  same_prefix a b m k xs e f = cc

  hash_segments_prefix :
      (input : List Bytes) (g rounds j n : ℕ)
      → length input ≡ 2 * n
      → (j + rounds) * g ≤ n + g
      → hash_segments h input g rounds j
          (take (j * g) (h.hash_chunks input) ++ replicate (n - j * g) zero_root)
        ≡ take ((j + rounds) * g) (h.hash_chunks input)
          ++ replicate (n - (j + rounds) * g) zero_root
  unfolding hash_segments
  hash_segments_prefix input g zero j n e l =
      let same : (j + 0) * g ≡ j * g = omega arith in grind arith
  hash_segments_prefix input g (suc rounds) j n e l =
      let digests = h.hash_chunks input in
      let here : j * g ≤ n = omega arith in
      let next : suc j * g ≡ j * g + g = omega arith in
      let last : (suc j + rounds) * g ≡ (j + suc rounds) * g = omega arith in
      let written =
        write_at-prefix (j * g) g (n - j * g) digests zero_root
          (omega (arith, length-hash_chunks n input e)) in
      let step = hash_segments_prefix input g rounds (suc j) n e (omega arith) in
      ap
        (λ ds.
          hash_segments h input g rounds (suc j)
            (write_at (j * g) ds (take (j * g) digests ++ replicate (n - j * g) zero_root)))
        (hash_chunks-slice g j n input e here)
      ∙ ap (hash_segments h input g rounds (suc j)) (
          written
          ∙ same_prefix (j * g + g) (suc j * g) (n - j * g - g) (n - suc j * g) digests
              (omega arith) (omega arith))
      ∙ step
      ∙ ap (λ k. take k digests ++ replicate (n - k) zero_root) last

-- The size of a goroutine's part of an output of `out` roots.
abbrev pub group_size : ℕ → ℕ → ℕ
group_size n out = (2 * out) / (2 * max n 1)

group_size-fits : (n out : ℕ) → n * group_size n out ≤ out
group_size-fits n out =
    let whole = div-mul-le_self (2 * out) (2 * max n 1) in
    let routines : n ≤ max n 1 = omega arith in
    let bound : n * group_size n out ≤ max n 1 * group_size n out =
      mul-le-mul_right (group_size n out) routines in
    omega arith

group_size-large : (n out : ℕ) → n ≤ 50 → 2500 ≤ out → 50 ≤ group_size n out
group_size-large n out small large =
    let fits : 50 * (2 * max n 1) ≤ 2 * out = omega arith in
    (le-div_iff_mul-le (omega arith)).1 fits

group_size-covers : (n out : ℕ) → n ≤ 50 → 2500 ≤ out → out ≤ suc n * group_size n out
group_size-covers zero out small large =
    let whole : 2 * out < group_size 0 out * (2 * max 0 1) + 2 * max 0 1 =
      lt-div-mul-add (omega arith) in
    omega arith
group_size-covers (suc n) out small large =
    let g = group_size (suc n) out in
    let whole : 2 * out < g * (2 * max (suc n) 1) + 2 * max (suc n) 1 =
      lt-div-mul-add (omega arith) in
    let least : 50 ≤ g = group_size-large (suc n) out small large in
    let same : max (suc n) 1 ≡ suc n = omega arith in
    let product : g * (2 * max (suc n) 1) ≡ g * (2 * suc n) = ap (λ m. g * (2 * m)) same in
    omega arith

module _ (h : Hasher) where
  hash_in_parallel-fills :
      (input : List Bytes) (n out : ℕ)
      → length input ≡ 2 * out
      → hash_in_parallel h input n
        ≡ take (suc n * group_size n out) (h.hash_chunks input)
          ++ replicate (out - suc n * group_size n out) zero_root
  unfolding hash_in_parallel
  hash_in_parallel-fills input n out e =
      let g = group_size n out in
      let blank : replicate (length input / 2) zero_root
          ≡ take (0 * g) (h.hash_chunks input) ++ replicate (out - 0 * g) zero_root =
        same_prefix h 0 (0 * g) (length input / 2) (out - 0 * g) (h.hash_chunks input) (omega arith)
          (omega arith) in
      ap
        (λ l.
          hash_segments h input (l / (2 * max n 1)) (suc n) 0
            (replicate (length input / 2) zero_root))
        e
      ∙ ap (hash_segments h input g (suc n) 0) blank
      ∙ hash_segments_prefix h input g (suc n) 0 out e (omega (arith, group_size-fits n out))
      ∙ same_prefix h ((0 + suc n) * g) (suc n * g) (out - (0 + suc n) * g) (out - suc n * g)
          (h.hash_chunks input) (omega arith) (omega arith)

  -- An input of 2 * out nodes, at least the size that is split, has its first (n + 1) * group_size
  -- pairs hashed; the roots of the pairs after them are left zero.
  parallel_fills :
      (input : List Bytes) (n out : ℕ)
      → length input ≡ 2 * out
      → min_parallelization_size ≤ length input
      → build_parent_tree_roots_with_routines h input n
        ≡ ok (
            take (suc n * group_size n out) (h.hash_chunks input)
            ++ replicate (out - suc n * group_size n out) zero_root)
  unfolding build_parent_tree_roots_with_routines
  parallel_fills input n out e large =
      let fill = hash_in_parallel-fills input n out e in ground arith

  -- With at most 50 routines beside the first, an input of even length is hashed as it is
  -- sequentially, whatever its length.
  pub parallel_sequential :
      (input : List Bytes) (n out : ℕ)
      → length input ≡ 2 * out
      → n ≤ 50
      → build_parent_tree_roots_with_routines h input n ≡ ok (h.hash_chunks input)
  unfolding build_parent_tree_roots_with_routines
  parallel_sequential input n out e small =
      elim (Bool-cases (ltb (length input) min_parallelization_size)) [
        | inl short ↦ ground arith
        | inr long ↦
            let k = suc n * group_size n out in
            let covered = group_size-covers n out small (ground arith) in
            let rest : out - k ≡ 0 = omega arith in
            let all =
              take_all k (h.hash_chunks input) (omega (arith, length-hash_chunks h out input e)) in
            parallel_fills input n out e (ground arith)
            ∙ ap (λ r. ok (take k (h.hash_chunks input) ++ replicate r zero_root)) rest
            ∙ ap ok (append-nil (take k (h.hash_chunks input)) ∙ all)
      ]
