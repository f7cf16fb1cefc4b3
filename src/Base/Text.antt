-- ===== src/Base/Text.antt =====
-- Lists of texts: membership and equality, as the services test them.
use Prim.Native.String.{String}
use mathlib.Core.Path.{◌≡◌, sym, subst}
use mathlib.Core.Logic.{◌≢◌, ◌⊎◌, inl, inr}
use mathlib.Core.Bool.{false}
use mathlib.Core.List.{List, [], ◌∷◌, ◌++◌}
use text.Mathlib.Text.{◌==◌}
use text.Mathlib.TextEquality.{eq_iff}
use psr_pl.Base.Lists.{All}
use psr_pl.Base.Tests.{Bool-cases}

-- `id` stands in the list.
abbrev pub Has : String → List String → Type 0
Has id [] = ⊥
Has id (x ∷ xs) = (x ≡ id) ⊎ Has id xs

-- No text stands twice in the list.
abbrev pub IsDistinct : List String → Type 0
IsDistinct [] = Unit
IsDistinct (x ∷ xs) = (Has x xs → ⊥) × IsDistinct xs

pub Has-append : (id : String) (xs ys : List String) → Has id (xs ++ ys) → Has id xs ⊎ Has id ys
Has-append id [] ys h = inr h
Has-append id (x ∷ xs) ys (inl e) = inl (inl e)
Has-append id (x ∷ xs) ys (inr h) = elim (Has-append id xs ys h) [
  | inl k ↦ inl (inr k)
  | inr k ↦ inr k
]

pub Has-append_left : (id : String) (xs ys : List String) → Has id xs → Has id (xs ++ ys)
Has-append_left id [] ys h = absurd h
Has-append_left id (x ∷ xs) ys (inl e) = inl e
Has-append_left id (x ∷ xs) ys (inr h) = inr (Has-append_left id xs ys h)

pub Has-append_right : (id : String) (xs ys : List String) → Has id ys → Has id (xs ++ ys)
Has-append_right id [] ys h = h
Has-append_right id (x ∷ xs) ys h = inr (Has-append_right id xs ys h)

Has-one : (id x : String) → Has x (id ∷ []) → x ≡ id
Has-one id x (inl e) = sym e
Has-one id x (inr b) = absurd b

pub IsDistinct-snoc :
    (xs : List String) (id : String) → IsDistinct xs → (Has id xs → ⊥) → IsDistinct (xs ++ id ∷ [])
IsDistinct-snoc [] id d n = ((λ h. h), tt)
IsDistinct-snoc (x ∷ xs) id (f, d) n = (fresh, IsDistinct-snoc xs id d (λ h. n (inr h)))
  where
    fresh : Has x (xs ++ id ∷ []) → ⊥
    fresh h = elim (Has-append x xs (id ∷ []) h) [ inl k ↦ f k | inr k ↦ n (inl (Has-one id x k)) ]

-- What holds of every element holds of each.
pub All-Has {κ} : (P : String → Type κ) (xs : List String) (x : String) → All P xs → Has x xs → P x
All-Has P [] x a h = absurd h
All-Has P (y ∷ ys) x (p, a) (inl e) = subst P e p
All-Has P (y ∷ ys) x (p, a) (inr h) = All-Has P ys x a h

pub Has-decided : (id : String) (xs : List String) → Has id xs ⊎ (¬ Has id xs)
Has-decided id [] = inr (λ h. h)
Has-decided id (x ∷ xs) = elim (Bool-cases (x == id)) [
  | inl e ↦ inl (inl ((eq_iff x id).0 e))
  | inr n ↦ elim (Has-decided id xs) [
    | inl h ↦ inl (inr h)
    | inr none ↦ inr (neither (λ e. cc ((eq_iff x id).1 e)) none)
  ]
]
  where
    neither : (¬ (x ≡ id)) → (¬ Has id xs) → ¬ Has id (x ∷ xs)
    neither n m (inl e) = n e
    neither n m (inr h) = m h

-- Texts that the test tells apart differ.
pub ne_of_test : (s t : String) → (s == t) ≡ false → s ≢ t
ne_of_test s t h e = cc ((eq_iff s t).1 e)
