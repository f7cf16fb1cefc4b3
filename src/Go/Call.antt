-- ===== src/Go/Call.antt =====
-- Calls that change a state and may fail. What was changed before a failure stays changed.
use psr_pl.Base.{String, ◌≡◌, ◌⊎◌, inl, inr, refl}
use psr_pl.Go.Fault.{Error, wrap}

pub data Result {ℓ} (A : Type ℓ) : Type ℓ where
  ok : A → Result A
  err : Error → Result A

abbrev pub Exec {ℓ} : Type ℓ → Type ℓ → Type ℓ
Exec S A = S → Result A × S

-- `if err != nil { return fmt.Errorf("message: %w", err) }`
abbrev pub wrap_result {ℓ} : {A : Type ℓ} → String → Result A → Result A
wrap_result message (ok a) = ok a
wrap_result message (err e) = err (wrap message e)

module _ {ℓ} {S A : Type ℓ} where
  abbrev pub pure : A → Exec S A
  pure a s = (ok a, s)

  abbrev pub raise : Error → Exec S A
  raise e s = (err e, s)

  abbrev pub lift : Result A → Exec S A
  lift r s = (r, s)

  abbrev pub wrapping : String → Exec S A → Exec S A
  wrapping message m s = let (r, t) = m s in (wrap_result message r, t)

  -- The error is a value for the code that follows.
  abbrev pub attempt : Exec S A → Exec S (Result A)
  attempt m s = let (r, t) = m s in (ok r, t)

module _ {ℓ} {S A B : Type ℓ} where
  abbrev pub after : Result A → (A → Exec S B) → Exec S B
  after (ok a) k s = k a s
  after (err e) k s = (err e, s)

  infixl 5 ◌>>=◌ ◌>>◌
  abbrev pub ◌>>=◌ : Exec S A → (A → Exec S B) → Exec S B
  ◌>>=◌ m k s = let (r, t) = m s in after r k t

  abbrev pub ◌>>◌ : Exec S A → Exec S B → Exec S B
  m >> n = m >>= λ _. n

module _ {ℓ} {A : Type ℓ} where
  pub Result-cases : (r : Result A) → ((a : A) × (r ≡ ok a)) ⊎ ((e : Error) × (r ≡ err e))
  Result-cases (ok a) = inl (a, refl)
  Result-cases (err e) = inr (e, refl)

  pub wrap_result-ok : (m : String) (r : Result A) {a : A} → wrap_result m r ≡ ok a → r ≡ ok a
  wrap_result-ok m (ok b) h = h
  wrap_result-ok m (err e) h = cc
