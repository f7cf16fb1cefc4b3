-- ===== src/Web/Mux.antt =====
-- `http.ServeMux` with patterns "METHOD /a/{id}/b": which handler a request reaches. The decoding of a
-- segment's percent escapes, `url.PathUnescape`, is a parameter.
use mathlib.Core.List.{map, tail}
use psr_pl.Base.{
  String, Bool, true, false, ◌&&◌, ◌||◌, List, [], ◌∷◌, Option, none, some, ◌==◌, if◌then◌else◌,
}
use text.Mathlib.Text.{starts_with}
use psr_pl.Web.Paths.{split_slash, clean_path}

pub data Segment : Type 0 where
  literal : String → Segment
  wildcard : Segment

-- A pattern's segment: "{name}" takes any segment of a path.
abbrev parse_segment : String → Segment
parse_segment s = if starts_with s "{" then wildcard else literal s

pub record Route (H : Type 0) : Type 0 where
  pub method : String
  pub pattern : List Segment
  pub handler : H

-- `mux.HandleFunc(method + " " + pattern, handler)`
unfoldable pub route : {H : Type 0} → String → String → H → Route H
route method pattern handler = record {
  method = method;
  pattern = map parse_segment (tail (split_slash pattern));
  handler = handler;
}

abbrev pub capture : String → Option (List String) → Option (List String)
capture s none = none
capture s (some found) = some (s ∷ found)

-- What the wildcards take. No wildcard takes an empty segment.
unfoldable pub match_path : List Segment → List String → Option (List String)
match_path [] [] = some []
match_path [] (s ∷ ss) = none
match_path (p ∷ ps) [] = none
match_path (literal t ∷ ps) (s ∷ ss) = if t == s then match_path ps ss else none
match_path (wildcard ∷ ps) (s ∷ ss) = if s == "" then none else capture s (match_path ps ss)

-- A pattern for GET takes HEAD too.
abbrev pub match_method : String → String → Bool
match_method registered method = registered == method || (registered == "GET" && method == "HEAD")

abbrev pub match_route : {H : Type 0} → Route H → String → List String → Option (List String)
match_route r method parts =
    if match_method r.method method then match_path r.pattern parts else none

pub data Outcome (H : Type 0) : Type 0 where
  -- a handler, and what the wildcards took
  found : H → List String → Outcome H
  -- a redirect to the canonical path
  moved : String → Outcome H
  -- other methods would be found
  not_allowed : List String → Outcome H
  not_found : Outcome H

module _ {H : Type 0} where
  abbrev first_of : Option (List String) → H → Option (H × List String) → Option (H × List String)
  first_of none h others = others
  first_of (some values) h others = some (h, values)

  -- The patterns of a service do not overlap, so that their order does not matter.
  unfoldable pub find_route : List (Route H) → String → List String → Option (H × List String)
  find_route [] method parts = none
  find_route (r ∷ rs) method parts =
      first_of (match_route r method parts) r.handler (find_route rs method parts)

  abbrev pub is_found : Option (H × List String) → Bool
  is_found none = false
  is_found (some f) = true

  abbrev pub allows : List (Route H) → List String → List String → List String
  allows routes parts [] = []
  allows routes parts (m ∷ ms) =
      let rest = allows routes parts ms in
      if is_found (find_route routes m parts) then m ∷ rest else rest

  -- The methods, of those that the services use, that would find a handler.
  abbrev pub allowed_methods : List (Route H) → List String → List String
  allowed_methods routes parts = allows routes parts ("GET" ∷ "HEAD" ∷ "POST" ∷ "PUT" ∷ [])

  abbrev pub without_route : List String → Outcome H
  without_route [] = not_found
  without_route (m ∷ ms) = not_allowed (m ∷ ms)

  abbrev pub outcome : List (Route H) → List String → Option (H × List String) → Outcome H
  outcome routes parts (some (h, values)) = found h values
  outcome routes parts none = without_route (allowed_methods routes parts)

  -- `mux.ServeHTTP`, up to the call of the handler.
  unfoldable pub dispatch : (String → String) → List (Route H) → String → String → Outcome H
  dispatch unescape routes method path =
      let parts = map unescape (tail (split_slash path)) in
      if method == "CONNECT" || clean_path path == path
      then outcome routes parts (find_route routes method parts)
      else moved (clean_path path)
