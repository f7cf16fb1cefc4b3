-- ===== src/Web/Exchange.antt =====
-- A request as a server gets it, the response, and what writes it: `http.Handler`, `writeJSON`,
-- `writeError`, and the replies of `net/http` itself.
use Prim.Native.String.{◌++◌ as concat}
use psr_pl.Base.{ℕ, String, List, [], ◌∷◌, ◌==◌, if◌then◌else◌}
use psr_pl.Go.{Error}
use psr_pl.Http.{Reply, Body, json, message}
use psr_pl.Web.Mux.{Outcome, found, moved, not_allowed, not_found}

-- `http.Header`, with canonical names and one value for each.
abbrev pub Headers : Type 0
Headers = List (String × String)

-- `Header.Get`
unfoldable pub get_header : String → Headers → String
get_header name [] = ""
get_header name ((n, v) ∷ hs) = if n == name then v else get_header name hs

-- `Header.Set`
unfoldable pub set_header : String → String → Headers → Headers
set_header name value [] = (name, value) ∷ []
set_header name value ((n, v) ∷ hs) =
    if n == name then (name, value) ∷ hs else (n, v) ∷ set_header name value hs

-- The context of a request holds the request id only.
pub record Incoming : Type 0 where
  pub method : String
  pub path : String
  pub headers : Headers
  pub payload : String
  pub request_id : String

pub record Response : Type 0 where
  pub status : ℕ
  pub headers : Headers
  pub payload : String

-- A handler gets the headers that were set on the response before it, and a state.
abbrev pub Handler : Type 0 → Type 0
Handler S = Incoming → Headers → S → Response × S

-- What `json.NewEncoder` writes for a body, from the encoders of its value and of an error.
abbrev encode_body : {A : Type 0} → (A → String) → (Error → String) → Body A → String
encode_body value failure (json a) = value a
encode_body value failure (message e) = failure e

-- `writeJSON` and `writeError`. The encoder of an error writes its trimmed text in an object.
unfoldable pub respond :
    {A : Type 0} → (A → String) → (Error → String) → Headers → Reply A → Response
respond value failure headers reply = record {
  status = reply.status;
  headers = set_header "Content-Type" "application/json" headers;
  payload = encode_body value failure reply.body;
}

-- `w.WriteHeader(status)`
abbrev pub write_header : ℕ → Headers → Response
write_header status headers = record { status = status; headers = headers; payload = "" }

-- `http.Error`
abbrev pub http_error : ℕ → String → Headers → Response
http_error status text headers = record {
  status = status;
  headers =
      set_header "X-Content-Type-Options" "nosniff"
        (set_header "Content-Type" "text/plain; charset=utf-8" headers);
  payload = concat text "\n";
}

-- `strings.Join(texts, ", ")`
abbrev pub join_comma : List String → String
join_comma [] = ""
join_comma (t ∷ []) = t
join_comma (t ∷ u ∷ ts) = concat t (concat ", " (join_comma (u ∷ ts)))

-- `r.PathValue` of the only wildcard of a pattern.
abbrev pub path_value : List String → String
path_value [] = ""
path_value (value ∷ values) = value

-- What the multiplexer answers; the body of a redirect is left out.
unfoldable pub serve_outcome :
    {H S : Type 0} → (H → List String → Handler S) → Outcome H → Handler S
serve_outcome serve (found h values) r headers s = serve h values r headers s
serve_outcome serve (moved path) r headers s =
    (write_header 301 (set_header "Location" path headers), s)
serve_outcome serve (not_allowed methods) r headers s =
    (http_error 405 "Method Not Allowed" (set_header "Allow" (join_comma methods) headers), s)
serve_outcome serve not_found r headers s = (http_error 404 "404 page not found" headers, s)
