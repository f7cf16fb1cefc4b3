-- ===== src/Web/Paths.antt =====
-- A request's path: its segments between slashes, and the canonical form that `ServeMux` asks for
-- (`cleanPath` of `net/http`, with `path.Clean`).
use Prim.Native.Char.{Char, code}
use Prim.Native.String
use Prim.Native.String.{String}
use mathlib.Core.List.{List, [], ◌∷◌, reverse, tail}
use psr_pl.Base.{Bool, false, ◌||◌, ◌==◌, nat_eq, if◌then◌else◌}

abbrev is_slash : Char → Bool
is_slash c = nat_eq (code c) b'/'

-- The character stands at the front of the first segment.
abbrev onto_first : Char → List String → List String
onto_first c [] = String.◌∷◌ c "" ∷ []
onto_first c (s ∷ ss) = String.◌∷◌ c s ∷ ss

-- `strings.Split(path, "/")`
unfoldable pub split_slash : String → List String
split_slash String.[] = "" ∷ []
split_slash (String.◌∷◌ c s) =
    let rest = split_slash s in if is_slash c then "" ∷ rest else onto_first c rest

-- A slash in front of each segment.
unfoldable pub join_slash : List String → String
join_slash [] = ""
join_slash (s ∷ ss) = String.◌++◌ "/" (String.◌++◌ s (join_slash ss))

-- One segment of `path.Clean`; the stack has its top at the head.
abbrev resolve : List String → String → List String
resolve stack part =
    if part == "" || part == "." then stack else if part == ".." then tail stack else part ∷ stack

unfoldable pub resolve_all : List String → List String → List String
resolve_all stack [] = reverse stack
resolve_all stack (part ∷ parts) = resolve_all (resolve stack part) parts

-- The last segment is empty: the path ends in a slash.
abbrev pub ends_empty : List String → Bool
ends_empty [] = false
ends_empty (s ∷ []) = s == ""
ends_empty (s ∷ t ∷ ss) = ends_empty (t ∷ ss)

-- The root path is "/"; of any other the slash at the end is kept.
abbrev rooted : Bool → List String → String
rooted slash [] = "/"
rooted slash (s ∷ ss) = String.◌++◌ (join_slash (s ∷ ss)) (if slash then "/" else "")

unfoldable pub clean_path : String → String
clean_path path = let parts = split_slash path in rooted (ends_empty parts) (resolve_all [] parts)
