-- ===== src/Web/Routing.antt =====
-- Where the multiplexer sends a request.
use mathlib.Core.List.{map}
use psr_pl.Base.{◌≡◌, refl, String, List, [], ◌∷◌, All, arith, eq_refl}
use psr_pl.Web.Paths.{join_slash}
use psr_pl.Web.Segments.{IsPlain, split_slash-join_slash, clean_path-join_slash}
use psr_pl.Web.Mux.{Route, find_route, dispatch, outcome}

map_same : (f : String → String) (ss : List String) → All (λ s. f s ≡ s) ss → map f ss ≡ ss
map_same f [] a = refl
map_same f (s ∷ ss) (e, a) = ground (arith, map_same f ss a)

-- A path that is put together from plain segments is canonical, and is matched by those segments.
pub dispatch-join_slash :
    {H : Type 0} (unescape : String → String) (routes : List (Route H)) (method s : String)
    (ss : List String)
    → All IsPlain (s ∷ ss)
    → All (λ t. unescape t ≡ t) (s ∷ ss)
    → dispatch unescape routes method (join_slash (s ∷ ss))
      ≡ outcome routes (s ∷ ss) (find_route routes method (s ∷ ss))
unfolding dispatch
dispatch-join_slash unescape routes method s ss plain same =
    rw
      (
        split_slash-join_slash (s ∷ ss) plain,
        clean_path-join_slash s ss plain,
        map_same unescape (s ∷ ss) same,
        eq_refl (join_slash (s ∷ ss)),
      )
      (ground arith)
