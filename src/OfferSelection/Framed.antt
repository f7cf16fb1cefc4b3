-- ===== src/OfferSelection/Framed.antt =====
-- The headers on every response of the server in pricing-orchestration-service/cmd/server/main.go.
use psr_pl.Base.{String, List, ◌≡◌, ◌≢◌, ◌⊎◌, refl}
use psr_pl.Http.{HttpClient}
use psr_pl.OfferSelection.Repository.{Repository}
use psr_pl.OfferSelection.Service.{WorkflowResumer}
use psr_pl.OfferSelection.Handler
use psr_pl.Web.{
  get_header, request_id, Headers, Incoming, dispatch, env_or_default, Environment, IsForeign,
  Keeps, respond-Keeps, serve_outcome-Keeps, with_request_id-with_cors,
}
use psr_pl.OfferSelection.Server.{
  Encoders, Decoders, Endpoint, get, confirm, present, health, routes, cors, serve, multiplexer,
  server,
}

module _ {D W N : Type 0} (repo : Repository D) (workflow : WorkflowResumer W) (http : HttpClient N)
    (base_url : String) (decode : Decoders) (encode : Encoders) (unescape : String → String) where
  serve-Keeps :
      (key : String)
      → IsForeign key
      → (h : Endpoint) (values : List String)
      → Keeps key (serve repo workflow http base_url decode encode unescape h values)
  serve-Keeps key foreign get values r headers s = respond-Keeps key _ _ headers _ foreign
  serve-Keeps key foreign confirm values r headers s = respond-Keeps key _ _ headers _ foreign
  serve-Keeps key foreign present values r headers s = respond-Keeps key _ _ headers _ foreign
  serve-Keeps key foreign health values r headers s = refl

  multiplexer-Keeps :
      (key : String)
      → IsForeign key
      → Keeps key (multiplexer repo workflow http base_url decode encode unescape)
  unfolding multiplexer
  multiplexer-Keeps key foreign r headers s =
      serve_outcome-Keeps key (serve repo workflow http base_url decode encode unescape)
        (dispatch unescape routes r.method r.path) foreign
        (λ h values. serve-Keeps key foreign h values) r headers s

  -- Every response of the server carries the request's id and the allowed origin, and a request with
  -- the method OPTIONS is answered with 204 and changes nothing.
  pub server_framed :
      (env : Environment) (fresh : String) (r : Incoming) (headers : Headers)
      (s : Handler.Server D W N)
      → let (response, after) =
          server repo workflow http base_url decode encode unescape env fresh r headers s in
        (get_header "X-Request-Id" response.headers ≡ request_id fresh r)
        × (get_header "Access-Control-Allow-Origin" response.headers
            ≡ env_or_default env "CORS_ALLOWED_ORIGIN" "*")
        × ((r.method ≢ "OPTIONS") ⊎ ((response.status ≡ 204) × (after ≡ s)))
  unfolding server
  server_framed env fresh r headers s =
      with_request_id-with_cors cors (env_or_default env "CORS_ALLOWED_ORIGIN" "*") fresh
        (multiplexer repo workflow http base_url decode encode unescape)
        (λ key. multiplexer-Keeps key) r headers s
