-- ===== src/Application/Framed.antt =====
-- The headers on every response of the server in application-management-service/cmd/server/main.go.
use psr_pl.Base.{String, List, ◌≡◌, ◌≢◌, ◌⊎◌, refl}
use psr_pl.Application.Repository.{Repository}
use psr_pl.Application.Sessions.{SessionStore}
use psr_pl.Application.Workflow.{WorkflowStarter}
use psr_pl.Application.OfferLog.{OfferLogAdapter}
use psr_pl.Application.Service.{State}
use psr_pl.Application.Handler.{Floats}
use psr_pl.Web.{
  get_header, request_id, Headers, Incoming, dispatch, env_or_default, Environment, IsForeign,
  Keeps, respond-Keeps, serve_outcome-Keeps, with_request_id-with_cors,
}
use psr_pl.Application.Server.{
  Encoders, Decoders, Outside, Endpoint, validate_invitation, submit, login, status, update_status,
  current_status, execution_arn, validate_session, health, routes, cors, serve, multiplexer, server,
}

module _ {D L W : Type 0} (repo : Repository D) (offers : OfferLogAdapter L)
    (sessions : SessionStore D) (workflow : WorkflowStarter W) (floats : Floats) (decode : Decoders)
    (encode : Encoders) (unescape : String → String) where
  serve-Keeps :
      (o : Outside) (key : String)
      → IsForeign key
      → (h : Endpoint) (values : List String)
      → Keeps key (serve repo offers sessions workflow floats decode encode unescape o h values)
  serve-Keeps o key foreign validate_invitation values r headers s =
      respond-Keeps key _ _ headers _ foreign
  serve-Keeps o key foreign submit values r headers s = respond-Keeps key _ _ headers _ foreign
  serve-Keeps o key foreign login values r headers s = respond-Keeps key _ _ headers _ foreign
  serve-Keeps o key foreign status values r headers s = respond-Keeps key _ _ headers _ foreign
  serve-Keeps o key foreign update_status values r headers s =
      respond-Keeps key _ _ headers _ foreign
  serve-Keeps o key foreign current_status values r headers s =
      respond-Keeps key _ _ headers _ foreign
  serve-Keeps o key foreign execution_arn values r headers s =
      respond-Keeps key _ _ headers _ foreign
  serve-Keeps o key foreign validate_session values r headers s =
      respond-Keeps key _ _ headers _ foreign
  serve-Keeps o key foreign health values r headers s = refl

  multiplexer-Keeps :
      (o : Outside) (key : String)
      → IsForeign key
      → Keeps key (multiplexer repo offers sessions workflow floats decode encode unescape o)
  unfolding multiplexer
  multiplexer-Keeps o key foreign r headers s =
      serve_outcome-Keeps key (serve repo offers sessions workflow floats decode encode unescape o)
        (dispatch unescape routes r.method r.path) foreign
        (λ h values. serve-Keeps o key foreign h values) r headers s

  -- Every response of the server carries the request's id and the allowed origin, and a request with
  -- the method OPTIONS is answered with 204 and changes nothing.
  pub server_framed :
      (env : Environment) (o : Outside) (r : Incoming) (headers : Headers) (s : State D L W)
      → let (response, after) =
          server repo offers sessions workflow floats decode encode unescape env o r headers s in
        (get_header "X-Request-Id" response.headers ≡ request_id o.request_id r)
        × (get_header "Access-Control-Allow-Origin" response.headers
            ≡ env_or_default env "CORS_ALLOWED_ORIGIN" "*")
        × ((r.method ≢ "OPTIONS") ⊎ ((response.status ≡ 204) × (after ≡ s)))
  unfolding server
  server_framed env o r headers s =
      with_request_id-with_cors cors (env_or_default env "CORS_ALLOWED_ORIGIN" "*") o.request_id
        (multiplexer repo offers sessions workflow floats decode encode unescape o)
        (λ key. multiplexer-Keeps o key) r headers s
