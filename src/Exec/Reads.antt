-- ===== src/Exec/Reads.antt =====
-- Actions that only read: whether they return or fail, the state is as it was.
use beacon_kit.Prelude.{ℕ, zero, suc, ◌+◌, [], ◌∷◌, ◌≡◌, refl, ◌∙◌}
use beacon_kit.Exec.{Result, ok, err, Exec, pure, continue, ◌>>=◌, collect}

pub record IsReader {S A : Type 0} (m : Exec S A) : Type 0 where
  pub at : (s : S) → (m s).1 ≡ s

module _ {S A : Type 0} where
  pub IsReader-pure : (a : A) → IsReader {S = S} (pure a)
  IsReader-pure a = record { at = λ s. refl }

  pub IsReader-result : (f : S → Result A) → IsReader {A = A} (λ s. (f s, s))
  IsReader-result f = record { at = λ s. refl }

module _ {S A B : Type 0} where
  continue_reads :
      (f : A → Exec S B) (r : Result A) (s : S)
      → ((a : A) → IsReader (f a))
      → (continue r f s).1 ≡ s
  continue_reads f (ok a) s kf = (kf a).at s
  continue_reads f (err e) s kf = refl

  pub IsReader-bind :
      (m : Exec S A) (f : A → Exec S B)
      → IsReader m
      → ((a : A) → IsReader (f a))
      → IsReader (m >>= f)
  IsReader-bind m f km kf = record { at = λ s. continue_reads f ((m s).0) (m s).1 kf ∙ km.at s }

module _ {S A : Type 0} where
  pub IsReader-collect :
      (f : ℕ → Exec S A) (i n : ℕ) → ((j : ℕ) → IsReader (f j)) → IsReader (collect f i n)
  unfolding collect
  IsReader-collect f i zero kf = IsReader-pure []
  IsReader-collect f i (suc n) kf = IsReader-bind (f i) _ (kf i) (λ a.
      IsReader-bind (collect f (i + 1) n) _ (IsReader-collect f (i + 1) n kf)
        (λ rest. IsReader-pure (a ∷ rest)))
