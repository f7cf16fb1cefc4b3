-- ===== src/Application/Serving.antt =====
-- What the server of application-management-service does with a request, behind its middlewares.
use psr_pl.Base.{String, List, ◌≡◌, ◌≢◌, arith, eq_iff}
use psr_pl.Web.{
  dispatch, found, Headers, set_header, Incoming, serve_outcome, request_id, with_request_id,
  cors_headers, with_cors, Environment, env_or_default,
}
use psr_pl.Application.Repository.{Repository}
use psr_pl.Application.Sessions.{SessionStore}
use psr_pl.Application.Workflow.{WorkflowStarter}
use psr_pl.Application.OfferLog.{OfferLogAdapter}
use psr_pl.Application.Service.{State}
use psr_pl.Application.Handler.{Floats}
use psr_pl.Application.Server.{
  Decoders, Encoders, Outside, Endpoint, routes, cors, serve, multiplexer, server,
}

-- The headers that the middlewares set.
abbrev pub common_headers : Environment → Outside → Incoming → Headers → Headers
common_headers env o r headers =
    cors_headers cors (env_or_default env "CORS_ALLOWED_ORIGIN" "*")
      (set_header "X-Request-Id" (request_id o.request_id r) headers)

module _ {D L W : Type 0} (repo : Repository D) (offers : OfferLogAdapter L)
    (sessions : SessionStore D) (workflow : WorkflowStarter W) (floats : Floats) (decode : Decoders)
    (encode : Encoders) (unescape : String → String) where
  pub server-found :
      (env : Environment) (o : Outside) (r : Incoming) (headers : Headers) (s : State D L W)
      (h : Endpoint) (values : List String)
      → r.method ≢ "OPTIONS"
      → dispatch unescape routes r.method r.path ≡ found h values
      → server repo offers sessions workflow floats decode encode unescape env o r headers s
        ≡ serve repo offers sessions workflow floats decode encode unescape o h values
            (record r { request_id = request_id o.request_id r })
            (common_headers env o r headers)
            s
  unfolding server multiplexer with_request_id with_cors serve_outcome
  server-found env o r headers s h values m e = ground (arith, eq_iff r.method "OPTIONS")
