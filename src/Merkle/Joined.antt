-- ===== src/Merkle/Joined.antt =====
-- A branch that is made of a branch below and a branch above.
use native.Mathlib.Nat.{
  div-div-eq-div-mul, pow-succ', mul_comm, add-mul-div_right, mul_assoc, zero-add, add-zero,
  suc-add,
}
use beacon_kit.Prelude.{
  ℕ, zero, suc, ◌+◌, ◌*◌, ◌/◌, ◌%◌, ◌^◌, Bytes, List, [], ◌∷◌, ◌++◌, length, ◌≡◌, refl, arith, ap,
  sym, ◌∙◌, ◌==◌, if◌then◌else◌,
}
use beacon_kit.Exec.{ok, bind_result}
use beacon_kit.Math.Bits.{pow_add, pow_pos, twice}
use beacon_kit.Merkle.{Hasher}
use beacon_kit.Merkle.Branches.{branch_rounds}

module _ (h : Hasher) where
  -- The rounds over two parts of a branch.
  pub branch_rounds-append :
      (index b d : ℕ) (p q : List Bytes) (node : Bytes)
      → branch_rounds h index (length p + b) d (p ++ q) node
        ≡ bind_result
            (branch_rounds h index (length p) d p node)
            (branch_rounds h index b (d + length p) q)
  unfolding branch_rounds
  branch_rounds-append index b d [] q node = rw (zero-add, add-zero) refl
  branch_rounds-append index b d (x ∷ p) q node =
      let ih =
        branch_rounds-append index b (suc d) p q
          (if index / 2 ^ d % 2 == 1 then h.sha256 x node else h.sha256 node x) in
      let e : d + suc (length p) ≡ suc d + length p = omega arith in rw (suc-add, e) ih

  above_low : (index d i : ℕ) → index / 2 ^ (d + i) ≡ index / 2 ^ d / 2 ^ i
  above_low index d i =
      ap (λ k. index / k) (pow_add d i) ∙ sym (div-div-eq-div-mul index (2 ^ d) (2 ^ i))

  same_bit : (q i d n : ℕ) → (i + q * 2 ^ (d + suc n)) / 2 ^ d % 2 ≡ i / 2 ^ d % 2
  same_bit q i d n =
      let split : q * 2 ^ (d + suc n) ≡ q * 2 ^ suc n * 2 ^ d =
        ap (λ k. q * k) (pow_add d (suc n) ∙ mul_comm (2 ^ d) (2 ^ suc n))
        ∙ sym (mul_assoc q (2 ^ suc n) (2 ^ d)) in
      let even = twice q (2 ^ n) (2 ^ suc n) (pow-succ' 2 n) in
      let moved : (i + q * 2 ^ (d + suc n)) / 2 ^ d ≡ i / 2 ^ d + q * 2 ^ suc n =
        ap (λ k. (i + k) / 2 ^ d) split ∙ add-mul-div_right i (q * 2 ^ suc n) (pow_pos d) in
      omega (arith, moved, even)

  -- The rounds from depth `d` on read the index without its low bits.
  pub branch_rounds_shift :
      (index d i n : ℕ) (p : List Bytes) (node : Bytes)
      → branch_rounds h index n (d + i) p node ≡ branch_rounds h (index / 2 ^ d) n i p node
  unfolding branch_rounds
  branch_rounds_shift index d i zero p node = refl
  branch_rounds_shift index d i (suc n) [] node = refl
  branch_rounds_shift index d i (suc n) (x ∷ p) node =
      let e : d + suc i ≡ suc (d + i) = omega arith in
      let ih =
        branch_rounds_shift index d (suc i) n p
          (if index / 2 ^ d / 2 ^ i % 2 == 1 then h.sha256 x node else h.sha256 node x) in
      rw (above_low index d i) (rw e at ih)

  -- The rounds below depth `d + n` do not read the high bits of the index.
  pub branch_rounds_low :
      (q i d n : ℕ) (p : List Bytes) (node : Bytes)
      → branch_rounds h (i + q * 2 ^ (d + n)) n d p node ≡ branch_rounds h i n d p node
  unfolding branch_rounds
  branch_rounds_low q i d zero p node = refl
  branch_rounds_low q i d (suc n) [] node = refl
  branch_rounds_low q i d (suc n) (x ∷ p) node =
      let e : suc d + n ≡ d + suc n = omega arith in
      let ih =
        branch_rounds_low q i (suc d) n p
          (if i / 2 ^ d % 2 == 1 then h.sha256 x node else h.sha256 node x) in
      rw (same_bit q i d n) (rw e at ih)

  -- A branch that leads to `root` over the low `k` bits of the index, and goes on over the others.
  pub branch_rounds_join :
      (index k b : ℕ) (p q : List Bytes) (node root : Bytes)
      → length p ≡ k
      → branch_rounds h index k 0 p node ≡ ok root
      → branch_rounds h index (k + b) 0 (p ++ q) node ≡ branch_rounds h (index / 2 ^ k) b 0 q root
  branch_rounds_join index k b p q node root sized found =
      let e : 0 + k ≡ k + 0 = omega arith in
      let parts = branch_rounds-append index b 0 p q node in
      (rw (sized, found, e) at parts) ∙ branch_rounds_shift index k 0 b q root
