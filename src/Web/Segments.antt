-- ===== src/Web/Segments.antt =====
-- Paths that are put together from segments fall into those segments again, and are canonical.
use Prim.Native.Char.{code}
use Prim.Native.String.{String, [], ◌∷◌, ◌++◌}
use mathlib.Core.List.{List, reverse, reverse_aux, reverse_aux-reverse_aux-nil}
use text.Mathlib.TextLemmas.{nil-append, cons-append, append-nil}
use psr_pl.Base.{false, sym, All, eq_iff, ◌≡◌, ◌≢◌, refl, arith}
use psr_pl.Web.Paths.{split_slash, join_slash, resolve_all, clean_path, ends_empty}

-- The text has no slash.
abbrev pub NoSlash : String → Type 0
NoSlash [] = Unit
NoSlash (c ∷ s) = (code c ≢ b'/') × NoSlash s

pub split_slash-append :
    (s t : String) → NoSlash s → split_slash (s ++ ("/" ++ t)) ≡ List.◌∷◌ s (split_slash t)
unfolding split_slash
split_slash-append [] t n = rw (nil-append, cons-append, nil-append) refl
split_slash-append (c ∷ s) t (n, ns) = rw (cons-append) (ground (arith, split_slash-append s t ns))

pub split_slash-NoSlash : (s : String) → NoSlash s → split_slash s ≡ List.◌∷◌ s List.[]
unfolding split_slash
split_slash-NoSlash [] n = refl
split_slash-NoSlash (c ∷ s) (n, ns) = ground (arith, split_slash-NoSlash s ns)

-- A segment that `path.Clean` keeps.
abbrev pub IsPlain : String → Type 0
IsPlain s = NoSlash s × (s ≢ "") × (s ≢ ".") × (s ≢ "..")

split_slash-join :
    (s : String) (ss : List String)
    → NoSlash s
    → All IsPlain ss
    → split_slash (s ++ join_slash ss) ≡ List.◌∷◌ s ss
unfolding join_slash
split_slash-join s List.[] n a = rw (append-nil s) (split_slash-NoSlash s n)
split_slash-join s (List.◌∷◌ t ss) n ((nt, _, _, _), a) =
    rw (split_slash-append s (t ++ join_slash ss) n) (rw (split_slash-join t ss nt a) refl)

-- The segments of a path that was put together from segments.
pub split_slash-join_slash :
    (ss : List String) → All IsPlain ss → split_slash (join_slash ss) ≡ List.◌∷◌ "" ss
split_slash-join_slash ss a = rw (sym (nil-append (join_slash ss))) (split_slash-join "" ss tt a)

resolve_all-plain :
    (stack ss : List String)
    → All IsPlain ss
    → resolve_all stack ss ≡ reverse (reverse_aux ss stack)
unfolding resolve_all
resolve_all-plain stack List.[] a = refl
resolve_all-plain stack (List.◌∷◌ s ss) ((n, ne, nd, ndd), a) =
    ground
      (arith, eq_iff s "", eq_iff s ".", eq_iff s "..", resolve_all-plain (List.◌∷◌ s stack) ss a)

ends_empty-plain :
    (s : String) (ss : List String)
    → All IsPlain (List.◌∷◌ s ss)
    → ends_empty (List.◌∷◌ s ss) ≡ false
ends_empty-plain s List.[] ((n, ne, nd, ndd), a) = ground (arith, eq_iff s "")
ends_empty-plain s (List.◌∷◌ t ss) (p, a) = ends_empty-plain t ss a

pub clean_path-join_slash :
    (s : String) (ss : List String)
    → All IsPlain (List.◌∷◌ s ss)
    → clean_path (join_slash (List.◌∷◌ s ss)) ≡ join_slash (List.◌∷◌ s ss)
unfolding clean_path resolve_all
clean_path-join_slash s ss a =
    rw
      (
        split_slash-join_slash (List.◌∷◌ s ss) a,
        ends_empty-plain s ss a,
        resolve_all-plain List.[] (List.◌∷◌ s ss) a,
        reverse_aux-reverse_aux-nil (List.◌∷◌ s ss) List.[],
      )
      (append-nil _)
