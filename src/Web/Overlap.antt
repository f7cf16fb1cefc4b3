-- ===== src/Web/Overlap.antt =====
-- Patterns that some request would match both. `ServeMux` refuses to register two of them, unless one
-- is the more specific; the services have none.
use psr_pl.Base.{
  not, String, Bool, true, false, List, [], ◌∷◌, ◌==◌, ◌||◌, ◌&&◌, if◌then◌else◌, some, ◌≡◌, ◌⊎◌,
  inl, inr, refl, arith, eq_iff, eq_refl, Option-cases,
}
use psr_pl.Web.Mux.{Segment, literal, wildcard, Route, match_path, match_route, find_route}

abbrev meet_segment : Segment → Segment → Bool
meet_segment (literal s) (literal t) = s == t
meet_segment (literal s) wildcard = true
meet_segment wildcard q = true

-- Some path matches both patterns.
unfoldable pub meet_path : List Segment → List Segment → Bool
meet_path [] [] = true
meet_path [] (q ∷ qs) = false
meet_path (p ∷ ps) [] = false
meet_path (p ∷ ps) (q ∷ qs) = if meet_segment p q then meet_path ps qs else false

abbrev meet_method : String → String → Bool
meet_method m n = m == n || (m == "GET" && n == "HEAD") || (m == "HEAD" && n == "GET")

module _ {H : Type 0} where
  abbrev pub meet : Route H → Route H → Bool
  meet r q = meet_method r.method q.method && meet_path r.pattern q.pattern

  abbrev pub meets_none : Route H → List (Route H) → Bool
  meets_none r [] = true
  meets_none r (q ∷ qs) = not (meet r q) && meets_none r qs

  abbrev pub are_disjoint : List (Route H) → Bool
  are_disjoint [] = true
  are_disjoint (r ∷ rs) = meets_none r rs && are_disjoint rs

  -- No two patterns of the list match one request.
  abbrev pub IsDisjoint : List (Route H) → Type 0
  IsDisjoint routes = are_disjoint routes ≡ true

  abbrev pub IsRoute : Route H → List (Route H) → Type 0
  IsRoute r [] = ⊥
  IsRoute r (q ∷ qs) = (q ≡ r) ⊎ IsRoute r qs

match_path-cons :
    (p : Segment) (ps : List Segment) (s : String) (ss us : List String)
    → match_path (p ∷ ps) (s ∷ ss) ≡ some us
    → ((p ≡ literal s) ⊎ (p ≡ wildcard)) × (a : List String) × (match_path ps ss ≡ some a)
unfolding match_path
match_path-cons (literal t) ps s ss us h =
    (inl (ground (arith, eq_iff t s)), us, ground (arith, eq_iff t s))
match_path-cons wildcard ps s ss us h = elim (Option-cases (match_path ps ss)) [
  | inl n ↦ absurd (ground arith)
  | inr (a, e) ↦ (inr refl, a, e)
]

meet_segment_lem :
    (p q : Segment) (s : String)
    → (p ≡ literal s) ⊎ (p ≡ wildcard)
    → (q ≡ literal s) ⊎ (q ≡ wildcard)
    → meet_segment p q ≡ true
meet_segment_lem p q s (inl e) (inl f) = rw (e, f) (eq_refl s)
meet_segment_lem p q s (inl e) (inr f) = rw (e, f) refl
meet_segment_lem p q s (inr e) f = rw e refl

meet_path_lem :
    (ps qs : List Segment) (parts us vs : List String)
    → match_path ps parts ≡ some us
    → match_path qs parts ≡ some vs
    → meet_path ps qs ≡ true
unfolding meet_path match_path
meet_path_lem [] [] parts us vs h k = refl
meet_path_lem [] (q ∷ qs) [] us vs h k = cc
meet_path_lem [] (q ∷ qs) (s ∷ ss) us vs h k = cc
meet_path_lem (p ∷ ps) [] [] us vs h k = cc
meet_path_lem (p ∷ ps) [] (s ∷ ss) us vs h k = cc
meet_path_lem (p ∷ ps) (q ∷ qs) [] us vs h k = cc
meet_path_lem (p ∷ ps) (q ∷ qs) (s ∷ ss) us vs h k =
    let (left, a, ha) = match_path-cons p ps s ss us h in
    let (right, b, hb) = match_path-cons q qs s ss vs k in
    rw (meet_segment_lem p q s left right) (meet_path_lem ps qs ss a b ha hb)

meet_lem :
    {H : Type 0} (r q : Route H) (method : String) (parts us vs : List String)
    → match_route r method parts ≡ some us
    → match_route q method parts ≡ some vs
    → meet r q ≡ true
meet_lem r q method parts us vs h k = ground (
  arith,
  meet_path_lem r.pattern q.pattern parts us vs,
  eq_iff r.method method,
  eq_iff q.method method,
  eq_iff r.method q.method,
  eq_iff r.method "GET",
  eq_iff q.method "GET",
  eq_iff r.method "HEAD",
  eq_iff q.method "HEAD",
  eq_iff method "HEAD",
)

module _ {H : Type 0} where
  meets_none_lem :
      (r q : Route H) (qs : List (Route H))
      → meets_none r qs ≡ true
      → IsRoute q qs
      → meet r q ≡ false
  meets_none_lem r q [] n h = absurd h
  meets_none_lem r q (x ∷ xs) n (inl e) = rw (← e) (ground arith)
  meets_none_lem r q (x ∷ xs) n (inr h) = meets_none_lem r q xs (ground arith) h

  -- Where no two patterns meet, a request that a pattern matches reaches the handler of that pattern,
  -- in whatever place of the list it stands.
  pub find_route_lem :
      (routes : List (Route H)) (r : Route H) (method : String) (parts values : List String)
      → IsDisjoint routes
      → IsRoute r routes
      → match_route r method parts ≡ some values
      → find_route routes method parts ≡ some (r.handler, values)
  unfolding find_route
  find_route_lem [] r method parts values d h m = absurd h
  find_route_lem (q ∷ qs) r method parts values d (inl e) m = rw (e, m) refl
  find_route_lem (q ∷ qs) r method parts values d (inr h) m =
      elim (Option-cases (match_route q method parts)) [
        | inl skip ↦ rw skip (find_route_lem qs r method parts values (ground arith) h m)
        | inr (us, taken) ↦ absurd (
            ground (
              arith,
              meet_lem q r method parts us values taken m,
              meets_none_lem q r qs (ground arith) h,
            ))
      ]

  -- What is found is the handler of a pattern that matches.
  pub find_route_registered :
      (routes : List (Route H)) (method : String) (parts : List String) (h : H)
      (values : List String)
      → find_route routes method parts ≡ some (h, values)
      → (r : Route H) × IsRoute r routes
        × (r.handler ≡ h)
        × (match_route r method parts ≡ some values)
  unfolding find_route
  find_route_registered [] method parts h values e = cc
  find_route_registered (q ∷ qs) method parts h values e =
      elim (Option-cases (match_route q method parts)) [
        | inl skip ↦
            let (r, there, own, m) =
              find_route_registered qs method parts h values (rw skip at e) in
            (r, inr there, own, m)
        | inr (us, taken) ↦ let same = rw taken at e in (q, inl refl, ground arith, ground arith)
      ]
