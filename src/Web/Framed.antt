-- ===== src/Web/Framed.antt =====
-- The headers that the two middlewares put on every response.
use psr_pl.Base.{
  ℕ, String, Bool, false, List, [], ◌∷◌, ◌==◌, ◌||◌, if◌then◌else◌, ◌≡◌, ◌≢◌, arith, refl, eq_iff,
  ne_of_test, inl, inr, ◌∙◌, ◌⊎◌, Bool-cases,
}
use psr_pl.Go.{Error}
use psr_pl.Http.{Reply}
use psr_pl.Web.Mux.{Outcome, found, moved, not_allowed, not_found}
use psr_pl.Web.Exchange.{
  join_comma, http_error, respond, Headers, get_header, set_header, Incoming, Handler,
  serve_outcome,
}
use psr_pl.Web.Middleware.{request_id, with_request_id, Cors, cors_headers, with_cors}

pub get_header-set_header :
    (key name value : String) (headers : Headers)
    → get_header key (set_header name value headers)
      ≡ (if name == key then value else get_header key headers)
unfolding get_header set_header
get_header-set_header key name value [] = refl
get_header-set_header key name value ((n, v) ∷ hs) =
    ground
      (arith, eq_iff n name, eq_iff n key, eq_iff name key, get_header-set_header key name value hs)

-- The headers of `withCORS`.
abbrev is_cors : String → Bool
is_cors key =
    "Access-Control-Allow-Headers" == key
    || "Access-Control-Allow-Methods" == key
    || "Access-Control-Allow-Origin" == key

-- A handler leaves the header that was set before it.
abbrev pub Keeps : {S : Type 0} → String → Handler S → Type 0
Keeps {S} key next =
    (r : Incoming) (headers : Headers) (s : S)
    → get_header key (next r headers s).0.headers ≡ get_header key headers

-- The header is none that `net/http` or `writeJSON` sets.
abbrev pub IsForeign : String → Type 0
IsForeign key =
    ("Content-Type" ≢ key) × ("X-Content-Type-Options" ≢ key) × ("Allow" ≢ key) × ("Location" ≢ key)

pub set_other :
    (key name value : String) (headers : Headers)
    → name ≢ key
    → get_header key (set_header name value headers) ≡ get_header key headers
set_other key name value headers other =
    ground (arith, get_header-set_header key name value headers, eq_iff name key)

http_error-Keeps :
    (key : String) (status : ℕ) (text : String) (headers : Headers)
    → IsForeign key
    → get_header key (http_error status text headers).headers ≡ get_header key headers
http_error-Keeps key status text headers own =
    set_other key "X-Content-Type-Options" "nosniff"
      (set_header "Content-Type" "text/plain; charset=utf-8" headers) own.1
    ∙ set_other key "Content-Type" "text/plain; charset=utf-8" headers own.0

pub serve_outcome-Keeps :
    {H S : Type 0} (key : String) (serve : H → List String → Handler S) (out : Outcome H)
    → IsForeign key
    → ((h : H) (values : List String) → Keeps key (serve h values))
    → Keeps key (serve_outcome serve out)
unfolding serve_outcome
serve_outcome-Keeps key serve (found h values) own kept r headers s = kept h values r headers s
serve_outcome-Keeps key serve (moved path) own kept r headers s =
    set_other key "Location" path headers own.3
serve_outcome-Keeps key serve (not_allowed methods) own kept r headers s =
    http_error-Keeps key 405 "Method Not Allowed" (set_header "Allow" (join_comma methods) headers)
      own
    ∙ set_other key "Allow" (join_comma methods) headers own.2
serve_outcome-Keeps key serve not_found own kept r headers s =
    http_error-Keeps key 404 "404 page not found" headers own

-- A reply in JSON leaves the header.
pub respond-Keeps :
    {A : Type 0} (key : String) (value : A → String) (failure : Error → String) (headers : Headers)
    (reply : Reply A)
    → IsForeign key
    → get_header key (respond value failure headers reply).headers ≡ get_header key headers
unfolding respond
respond-Keeps key value failure headers reply own =
    set_other key "Content-Type" "application/json" headers own.0

cors_headers_other :
    (key origin : String) (cors : Cors) (headers : Headers)
    → is_cors key ≡ false
    → get_header key (cors_headers cors origin headers) ≡ get_header key headers
cors_headers_other key origin cors headers other =
    rw
      (
        get_header-set_header key "Access-Control-Allow-Headers" cors.headers (
            set_header "Access-Control-Allow-Methods" cors.methods
              (set_header "Access-Control-Allow-Origin" origin headers)),
        get_header-set_header key "Access-Control-Allow-Methods" cors.methods
            (set_header "Access-Control-Allow-Origin" origin headers),
        get_header-set_header key "Access-Control-Allow-Origin" origin headers,
      )
      (ground arith)

cors_headers_origin :
    (origin : String) (cors : Cors) (headers : Headers)
    → get_header "Access-Control-Allow-Origin" (cors_headers cors origin headers) ≡ origin
cors_headers_origin origin cors headers =
    rw
      (
        get_header-set_header "Access-Control-Allow-Origin" "Access-Control-Allow-Headers"
            cors.headers
            (set_header "Access-Control-Allow-Methods" cors.methods
              (set_header "Access-Control-Allow-Origin" origin headers)),
        get_header-set_header "Access-Control-Allow-Origin" "Access-Control-Allow-Methods"
            cors.methods (set_header "Access-Control-Allow-Origin" origin headers),
        get_header-set_header "Access-Control-Allow-Origin" "Access-Control-Allow-Origin" origin
            headers,
      )
      refl

request_id-IsForeign : IsForeign "X-Request-Id"
request_id-IsForeign = (
  ne_of_test "Content-Type" "X-Request-Id" refl,
  ne_of_test "X-Content-Type-Options" "X-Request-Id" refl,
  ne_of_test "Allow" "X-Request-Id" refl,
  ne_of_test "Location" "X-Request-Id" refl,
)

origin-IsForeign : IsForeign "Access-Control-Allow-Origin"
origin-IsForeign = (
  ne_of_test "Content-Type" "Access-Control-Allow-Origin" refl,
  ne_of_test "X-Content-Type-Options" "Access-Control-Allow-Origin" refl,
  ne_of_test "Allow" "Access-Control-Allow-Origin" refl,
  ne_of_test "Location" "Access-Control-Allow-Origin" refl,
)

module _ {S : Type 0} (cors : Cors) (origin fresh : String) (next : Handler S)
    (kept : (key : String) → IsForeign key → Keeps key next) where
  -- Behind the two middlewares, if the handler leaves every header but the four that `net/http` and
  -- `writeJSON` set (`IsForeign`), every response carries the request's id, which is the caller's or,
  -- if there was none, the new one, and the allowed origin; and a request with the method OPTIONS is
  -- answered with 204 and changes nothing.
  pub with_request_id-with_cors :
      (r : Incoming) (headers : Headers) (s : S)
      → let (response, after) = with_request_id fresh (with_cors cors origin next) r headers s in
        (get_header "X-Request-Id" response.headers ≡ (
          if get_header "X-Request-Id" r.headers == ""
          then fresh
          else get_header "X-Request-Id" r.headers))
        × (get_header "Access-Control-Allow-Origin" response.headers ≡ origin)
        × ((r.method ≢ "OPTIONS") ⊎ ((response.status ≡ 204) × (after ≡ s)))
  unfolding with_request_id with_cors
  with_request_id-with_cors r headers s =
      let id = request_id fresh r in
      let first = set_header "X-Request-Id" id headers in
      let given = get_header-set_header "X-Request-Id" "X-Request-Id" id headers in
      let past = cors_headers_other "X-Request-Id" origin cors first refl in
      let allowed = cors_headers_origin origin cors first in
      let inner = record r { request_id = id } in
      let all_headers = cors_headers cors origin first in
      let named = kept "X-Request-Id" request_id-IsForeign inner all_headers s in
      let open_to = kept "Access-Control-Allow-Origin" origin-IsForeign inner all_headers s in
      elim (Bool-cases (r.method == "OPTIONS")) [
        | inl preflight ↦ (ground arith, ground arith, inr (ground arith, ground arith))
        | inr other ↦ (ground arith, ground arith, inl (ground (arith, eq_iff r.method "OPTIONS")))
      ]
