-- ===== src/Application/Suffix.antt =====
-- Go's `strings.HasSuffix`, on which the login rests.

use Prim.Native.String.{String, [], ◌∷◌, ◌++◌}
use Prim.Native.String.append
use mathlib.Core.Path.{◌≡◌, sym, ap, subst⁻¹, ◌∙◌}
use mathlib.Core.Logic.{◌↔◌}
use mathlib.Core.Bool.{Bool, true}
use text.Mathlib.Text.{◌==◌}
use text.Mathlib.TextEquality.{eq_iff}
use text.Mathlib.TextPositions.{eq_refl}
use psr_pl.Base.{arith, if◌then◌else◌, Bool-cases, inl, inr}

abbrev pub has_suffix : String → String → Bool
has_suffix [] t = [] == t
has_suffix (c ∷ s) t = if (c ∷ s) == t then true else has_suffix s t

abbrev pub EndsIn : String → String → Type 0
EndsIn s t = (u : String) × (s ≡ u ++ t)

suffix_ends : (s t : String) → has_suffix s t ≡ true → EndsIn s t
suffix_ends [] t h = ([], (eq_iff [] t).0 h ∙ sym (append.nil t))
suffix_ends (c ∷ s) t h = elim (Bool-cases ((c ∷ s) == t)) [
  | inl e ↦ ([], (eq_iff (c ∷ s) t).0 e ∙ sym (append.nil t))
  | inr n ↦
      let (u, found) = suffix_ends s t (ground arith) in
      (c ∷ u, ap (λ v. c ∷ v) found ∙ sym (append.cons c u t))
]

self_suffix : (t : String) → has_suffix t t ≡ true
self_suffix [] = eq_refl []
self_suffix (c ∷ t) = ground (arith, eq_refl (c ∷ t))

append_suffix : (u t : String) → has_suffix (u ++ t) t ≡ true
append_suffix [] t = subst⁻¹ (λ v. has_suffix v t ≡ true) (append.nil t) (self_suffix t)
append_suffix (c ∷ u) t =
    subst⁻¹ (λ v. has_suffix v t ≡ true) (append.cons c u t) (ground (arith, append_suffix u t))

-- A text has the suffix exactly if it is some text followed by it.
pub has_suffix_iff : (s t : String) → (has_suffix s t ≡ true) ↔ EndsIn s t
has_suffix_iff s t =
    (suffix_ends s t, λ (u, e). subst⁻¹ (λ v. has_suffix v t ≡ true) e (append_suffix u t))

pub has_suffix-empty : (s : String) → has_suffix s "" ≡ true
has_suffix-empty [] = eq_refl ""
has_suffix-empty (c ∷ s) = ground (arith, has_suffix-empty s)
