-- ===== src/Web/Middleware.antt =====
-- The two middlewares of every service: `WithRequestID` of requestid.go and `withCORS` of
-- cmd/server/main.go. The id that `newRequestID` draws is an argument.
use psr_pl.Base.{String, ◌==◌, if◌then◌else◌}
use psr_pl.Web.Exchange.{Headers, get_header, set_header, Incoming, Handler, write_header}

-- The caller's id, or a new one.
abbrev pub request_id : String → Incoming → String
request_id fresh r = let id = get_header "X-Request-Id" r.headers in if id == "" then fresh else id

unfoldable pub with_request_id : {S : Type 0} → String → Handler S → Handler S
with_request_id fresh next r headers s =
    let id = request_id fresh r in
    next (record r { request_id = id }) (set_header "X-Request-Id" id headers) s

-- What a service allows: its methods and its request headers.
pub record Cors : Type 0 where
  pub methods : String
  pub headers : String

abbrev pub cors_headers : Cors → String → Headers → Headers
cors_headers cors origin headers = set_header "Access-Control-Allow-Headers" cors.headers (
    set_header "Access-Control-Allow-Methods" cors.methods
      (set_header "Access-Control-Allow-Origin" origin headers))

unfoldable pub with_cors : {S : Type 0} → Cors → String → Handler S → Handler S
with_cors cors origin next r headers s =
    if r.method == "OPTIONS"
    then (write_header 204 (cors_headers cors origin headers), s)
    else next r (cors_headers cors origin headers) s
