-- ===== src/OfferSelection/Server.antt =====
-- pricing-orchestration-service/cmd/server/main.go and `Register` of internal/offerselection/handler.go:
-- the settings, the routes and the server that the handlers stand in. The clients of AWS, the sockets
-- and the shutdown are left out; the encoders and decoders of `encoding/json` are parameters.
use psr_pl.Base.{String, Bool, List, [], ◌∷◌}
use psr_pl.Go.{Error, Result}
use psr_pl.Http.{HttpClient, Reply}
use psr_pl.Web.{
  Route, route, dispatch, Headers, get_header, Incoming, Response, Handler, respond, write_header,
  path_value, serve_outcome, with_request_id, Cors, with_cors, Environment, Startup, started,
  require_env, env_or_default, ◌>>=◌,
}
use psr_pl.OfferSelection.Model.{SelectedOffer}
use psr_pl.OfferSelection.Repository.{Repository}
use psr_pl.OfferSelection.Service.{WorkflowResumer}
use psr_pl.OfferSelection.Sessions.{SessionValidator, session_validator}
use psr_pl.OfferSelection.Handler
use psr_pl.OfferSelection.Handler.{Server, PresentBody, ConfirmBody}

pub record Settings : Type 0 where
  pub table_name : String
  pub application_url : String
  pub port : String

unfoldable pub settings : Environment → Startup Settings
settings env = do
  table_name ← require_env env "PRICING_OFFER_TABLE_NAME"
  application_url ← require_env env "APPLICATION_MANAGEMENT_BASE_URL"
  started (record {
    table_name = table_name;
    application_url = application_url;
    port = env_or_default env "PORT" "8082";
  })

-- `health` serves `/healthz` and `/readyz`.
pub data Endpoint : Type 0 where
  get confirm present health : Endpoint

unfoldable pub routes : List (Route Endpoint)
routes =
    route "GET" "/api/v1/pricing-orchestration/applications/{id}/selected-offer" get
    ∷ route "POST" "/api/v1/pricing-orchestration/applications/{id}/selected-offer/confirm" confirm
    ∷ route "POST" "/internal/applications/{id}/selected-offer" present
    ∷ route "GET" "/healthz" health
    ∷ route "GET" "/readyz" health
    ∷ []

abbrev pub cors : Cors
cors = record { methods = "GET, POST, OPTIONS"; headers = "Content-Type, Authorization" }

-- `json.NewDecoder(r.Body).Decode` into the body of each handler, and into the answer of the session
-- validation.
pub record Decoders : Type 0 where
  pub present : String → Result PresentBody
  pub confirm : String → Result ConfirmBody
  pub valid : String → Result Bool

-- What `json.NewEncoder` writes for the value of each handler, and for an error.
pub record Encoders : Type 0 where
  pub selected_offer : SelectedOffer → String
  pub application_id : String → String
  pub failure : Error → String

-- `base_url` is the setting of application-management-service; the argument of `server` behind the
-- environment is the random request id.
module _ {D W N : Type 0} (repo : Repository D) (workflow : WorkflowResumer W) (http : HttpClient N)
    (base_url : String) (decode : Decoders) (encode : Encoders) (unescape : String → String) where
  abbrev answer :
      {A : Type 0} → (A → String) → Headers → Reply A × Server D W N → Response × Server D W N
  answer value headers (reply, s) = (respond value encode.failure headers reply, s)

  -- The client of application-management-service sends the request's id on.
  abbrev client : Incoming → SessionValidator N
  client r = session_validator http decode.valid base_url r.request_id

  -- The handler of an endpoint, with the values of the pattern's wildcards.
  abbrev pub serve : Endpoint → List String → Handler (Server D W N)
  serve get values r headers s = answer encode.selected_offer headers (
      Handler.get repo workflow (client r) (get_header "Authorization" r.headers)
        (path_value values) s)
  serve confirm values r headers s = answer encode.selected_offer headers (
      Handler.confirm repo workflow (client r) (get_header "Authorization" r.headers)
        (path_value values) (decode.confirm r.payload) s)
  serve present values r headers s =
      answer encode.application_id headers
        (Handler.present repo workflow (client r) (decode.present r.payload) s)
  serve health values r headers s = (write_header 200 headers, s)

  unfoldable pub multiplexer : Handler (Server D W N)
  multiplexer r = serve_outcome serve (dispatch unescape routes r.method r.path) r

  -- The server's handler; the allowed origin is `CORS_ALLOWED_ORIGIN`, or "*".
  unfoldable pub server : Environment → String → Handler (Server D W N)
  server env fresh =
      with_request_id fresh
        (with_cors cors (env_or_default env "CORS_ALLOWED_ORIGIN" "*") multiplexer)
