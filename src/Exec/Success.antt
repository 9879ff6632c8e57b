-- ===== src/Exec/Success.antt =====
-- Successful actions, and the parts of a successful sequence.
use beacon_kit.Exec.{ok, err, Result, Exec, ◌>>=◌, Error}
use beacon_kit.Prelude.{◌≡◌, refl, arith, ◌⊎◌, inl, inr}

-- The action returns `a` and leaves the state `t`.
abbrev pub Succeeds : {S A : Type 0} → Exec S A → S → A → S → Type 0
Succeeds m s a t = m s ≡ (ok a, t)

module _ {S A B : Type 0} (m : Exec S A) (f : A → Exec S B) where
  -- The parts of a successful sequence.
  pub >>=-Succeeds :
      (s : S) (b : B) (t : S)
      → Succeeds (m >>= f) s b t
      → (a : A) × (s' : S) × Succeeds m s a s' × Succeeds (f a) s' b t
  >>=-Succeeds s b t h = go ((m s).0) refl
    where
      go :
          (r : Result A)
          → (m s).0 ≡ r
          → (a : A) × (s' : S) × Succeeds m s a s' × Succeeds (f a) s' b t
      go (ok a) e = (a, (m s).1, ground arith, ground arith)
      go (err x) e = absurd (ground arith)

pub Result-cases :
    {A : Type 0} (r : Result A) → ((a : A) × (r ≡ ok a)) ⊎ ((e : Error) × (r ≡ err e))
Result-cases (ok a) = inl (a, refl)
Result-cases (err e) = inr (e, refl)
