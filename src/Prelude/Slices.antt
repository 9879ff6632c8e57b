-- ===== src/Prelude/Slices.antt =====
-- Parts of lists: what `take` and `drop` leave, and the slices of Go.
use Prim.Native.Nat.{ℕ, zero, suc, ◌+◌, ◌-◌, ◌≤◌, min}
use mathlib.Core.Path.{◌≡◌, refl, ap, sym, ◌∙◌}
use mathlib.Core.List.{List, [], ◌∷◌, ◌++◌}
use native.Mathlib.Omega.{arith}
use beacon_kit.Prelude.Lists.{length, take, drop, replicate, get_or}

module _ {ℓ} {A : Type ℓ} where
  -- xs[from:to]
  unfoldable pub slice : ℕ → ℕ → List A → List A
  slice from to xs = take (to - from) (drop from xs)

  -- copy(xs[start:], ys), where ys fits.
  unfoldable pub write_at : ℕ → List A → List A → List A
  write_at start ys xs = take start xs ++ (ys ++ drop (start + length ys) xs)

  pub append-nil : (xs : List A) → xs ++ [] ≡ xs
  append-nil [] = refl
  append-nil (x ∷ xs) = ap (λ r. x ∷ r) (append-nil xs)

  pub get_or-append_default :
      (i : ℕ) (xs : List A) (a : A) → get_or (xs ++ (a ∷ [])) i a ≡ get_or xs i a
  get_or-append_default zero [] a = refl
  get_or-append_default (suc i) [] a = refl
  get_or-append_default zero (x ∷ xs) a = refl
  get_or-append_default (suc i) (x ∷ xs) a = get_or-append_default i xs a

  pub take_nil : (n : ℕ) → take {A = A} n [] ≡ []
  take_nil zero = refl
  take_nil (suc n) = refl

  pub drop_nil : (n : ℕ) → drop {A = A} n [] ≡ []
  drop_nil zero = refl
  drop_nil (suc n) = refl

  pub length-take : (n : ℕ) (xs : List A) → length (take n xs) ≡ min n (length xs)
  length-take zero xs = omega arith
  length-take (suc n) [] = omega arith
  length-take (suc n) (x ∷ xs) = omega (arith, length-take n xs)

  pub length-drop : (n : ℕ) (xs : List A) → length (drop n xs) ≡ length xs - n
  length-drop zero xs = omega arith
  length-drop (suc n) [] = omega arith
  length-drop (suc n) (x ∷ xs) = omega (arith, length-drop n xs)

  pub take_all : (n : ℕ) (xs : List A) → length xs ≤ n → take n xs ≡ xs
  take_all zero [] h = refl
  take_all zero (x ∷ xs) h = grind arith
  take_all (suc n) [] h = refl
  take_all (suc n) (x ∷ xs) h = ap (λ r. x ∷ r) (take_all n xs (omega arith))

  pub take-min : (n : ℕ) (xs : List A) → take (min n (length xs)) xs ≡ take n xs
  take-min zero xs = grind arith
  take-min (suc n) [] = grind arith
  take-min (suc n) (x ∷ xs) = grind (arith, take-min n xs)

  pub drop-replicate : (n m : ℕ) (a : A) → drop n (replicate m a) ≡ replicate (m - n) a
  drop-replicate zero m a = grind arith
  drop-replicate (suc n) zero a = grind arith
  drop-replicate (suc n) (suc m) a = grind (arith, drop-replicate n m a)

  write_first :
      (m k : ℕ) (xs : List A) (a : A)
      → length xs ≡ k
      → take m xs ++ drop (0 + length (take m xs)) (replicate k a)
        ≡ take m xs ++ replicate (k - m) a
  write_first m k xs a e =
      ap (λ r. take m xs ++ r)
        (grind (arith, drop-replicate (length (take m xs)) k a, length-take m xs))

  take-suc_add : (s m : ℕ) (x : A) (xs : List A) → take (suc s + m) (x ∷ xs) ≡ x ∷ take (s + m) xs
  take-suc_add s m x xs = let e : suc s + m ≡ suc (s + m) = omega arith in cc

  drop-suc_add : (s m : ℕ) (x : A) (xs : List A) → drop (suc s + m) (x ∷ xs) ≡ drop (s + m) xs
  drop-suc_add s m x xs = let e : suc s + m ≡ suc (s + m) = omega arith in cc

  -- Writing the next part of `xs` over a copy of which only the first `s` elements are done.
  pub write_at-prefix :
      (s m k : ℕ) (xs : List A) (a : A)
      → length xs ≡ s + k
      → write_at s (take m (drop s xs)) (take s xs ++ replicate k a)
        ≡ take (s + m) xs ++ replicate (k - m) a
  unfolding write_at
  write_at-prefix zero m k xs a e = let first = write_first m k xs a (omega arith) in grind arith
  write_at-prefix (suc s) m k [] a e = grind arith
  write_at-prefix (suc s) m k (x ∷ xs) a e =
      let rest = write_at-prefix s m k xs a (omega arith) in
      ap (λ r. x ∷ (take s (take s xs ++ replicate k a) ++ (take m (drop s xs) ++ r)))
        (drop-suc_add s (length (take m (drop s xs))) x (take s xs ++ replicate k a))
      ∙ ap (λ r. x ∷ r) rest
      ∙ ap (λ r. r ++ replicate (k - m) a) (sym (take-suc_add s m x xs))
