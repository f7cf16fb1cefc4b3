-- ===== src/Status/Framed.antt =====
-- The headers on every response of the server in workflow-status-service/cmd/server/main.go.
use psr_pl.Base.{String, List, ◌≡◌, ◌≢◌, ◌⊎◌, refl}
use psr_pl.Go.{Error}
use psr_pl.Http.{HttpClient}
use psr_pl.Status.Model.{WorkflowStatus}
use psr_pl.Status.Reader.{ExecutionReader}
use psr_pl.Status.Client.{Decoders}
use psr_pl.Status.Service.{State}
use psr_pl.Web.{
  get_header, request_id, Headers, Incoming, dispatch, env_or_default, Environment, IsForeign,
  Keeps, respond-Keeps, serve_outcome-Keeps, with_request_id-with_cors,
}
use psr_pl.Status.Server.{Endpoint, status, health, routes, cors, serve, multiplexer, server}

module _ {N E : Type 0} (http : HttpClient N) (executions : ExecutionReader E) (base_url : String)
    (decode : Decoders) (encode : WorkflowStatus → String) (failure : Error → String)
    (unescape : String → String) where
  serve-Keeps :
      (key : String)
      → IsForeign key
      → (h : Endpoint) (values : List String)
      → Keeps key (serve http executions base_url decode encode failure unescape h values)
  serve-Keeps key foreign status values r headers s = respond-Keeps key _ _ headers _ foreign
  serve-Keeps key foreign health values r headers s = refl

  multiplexer-Keeps :
      (key : String)
      → IsForeign key
      → Keeps key (multiplexer http executions base_url decode encode failure unescape)
  unfolding multiplexer
  multiplexer-Keeps key foreign r headers s =
      serve_outcome-Keeps key (serve http executions base_url decode encode failure unescape)
        (dispatch unescape routes r.method r.path) foreign
        (λ h values. serve-Keeps key foreign h values) r headers s

  -- Every response of the server carries the request's id and the allowed origin, and a request with
  -- the method OPTIONS is answered with 204 and changes nothing.
  pub server_framed :
      (env : Environment) (fresh : String) (r : Incoming) (headers : Headers) (s : State N E)
      → let (response, after) =
          server http executions base_url decode encode failure unescape env fresh r headers s in
        (get_header "X-Request-Id" response.headers ≡ request_id fresh r)
        × (get_header "Access-Control-Allow-Origin" response.headers
            ≡ env_or_default env "CORS_ALLOWED_ORIGIN" "*")
        × ((r.method ≢ "OPTIONS") ⊎ ((response.status ≡ 204) × (after ≡ s)))
  unfolding server
  server_framed env fresh r headers s =
      with_request_id-with_cors cors (env_or_default env "CORS_ALLOWED_ORIGIN" "*") fresh
        (multiplexer http executions base_url decode encode failure unescape)
        (λ key. multiplexer-Keeps key) r headers s
