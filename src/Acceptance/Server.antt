-- ===== src/Acceptance/Server.antt =====
-- offer-acceptance-service/cmd/server/main.go and `Register` of internal/offeracceptance/handler.go:
-- the settings, the routes and the server that the handlers stand in. The clients of AWS, the sockets
-- and the shutdown are left out; the encoders and decoders of `encoding/json` are parameters.
use psr_pl.Base.{ℕ, String, List, [], ◌∷◌}
use psr_pl.Go.{Error, Result}
use psr_pl.Http.{HttpClient, Reply}
use psr_pl.Web.{
  Route, route, dispatch, Headers, Incoming, Response, Handler, respond, write_header, path_value,
  serve_outcome, with_request_id, Cors, with_cors, Environment, Startup, started, require_env,
  env_or_default, ◌>>=◌,
}
use psr_pl.Acceptance.Model.{Declaration, EsignRecord}
use psr_pl.Acceptance.Repository.{Repository}
use psr_pl.Acceptance.Service.{StatusUpdater, State}
use psr_pl.Acceptance.Handler
use psr_pl.Acceptance.Handler.{application_client}

pub record Settings : Type 0 where
  pub table_name : String
  pub application_url : String
  pub port : String

unfoldable pub settings : Environment → Startup Settings
settings env = do
  table_name ← require_env env "OFFER_ACCEPTANCE_TABLE_NAME"
  application_url ← require_env env "APPLICATION_MANAGEMENT_BASE_URL"
  started (record {
    table_name = table_name;
    application_url = application_url;
    port = env_or_default env "PORT" "8085";
  })

-- `health` serves `/healthz` and `/readyz`.
pub data Endpoint : Type 0 where
  declarations esign health : Endpoint

unfoldable pub routes : List (Route Endpoint)
routes =
    route "GET" "/api/v1/offer-acceptance/applications/{id}/declarations" declarations
    ∷ route "POST" "/api/v1/offer-acceptance/applications/{id}/esign" esign
    ∷ route "GET" "/healthz" health
    ∷ route "GET" "/readyz" health
    ∷ []

abbrev pub cors : Cors
cors = record { methods = "GET, POST, OPTIONS"; headers = "Content-Type, Authorization" }

-- What `json.NewEncoder` writes for the value of each handler, and for an error.
pub record Encoders : Type 0 where
  pub declarations : List Declaration → String
  pub esign_record : EsignRecord → String
  pub failure : Error → String

-- The clock, and the random request id.
pub record Outside : Type 0 where
  pub now : ℕ
  pub request_id : String

-- `decode` is the JSON decoder's answer for a body's `acceptedDeclarationIds`; `base_url` is the
-- setting of application-management-service.
module _ {D N : Type 0} (repo : Repository D) (http : HttpClient N) (base_url : String)
    (decode : String → Result (List String)) (encode : Encoders) (unescape : String → String) where
  abbrev answer : {A : Type 0} → (A → String) → Headers → Reply A × State D N → Response × State D N
  answer value headers (reply, s) = (respond value encode.failure headers reply, s)

  -- The client of application-management-service sends the request's id on.
  abbrev client : Incoming → StatusUpdater N
  client r = application_client http base_url r.request_id

  -- The handler of an endpoint, with the values of the pattern's wildcards.
  abbrev pub serve : Outside → Endpoint → List String → Handler (State D N)
  serve o declarations values r headers s =
      answer encode.declarations headers (Handler.declarations, s)
  serve o esign values r headers s =
      answer encode.esign_record headers
        (Handler.esign repo (client r) (path_value values) (decode r.payload) o.now s)
  serve o health values r headers s = (write_header 200 headers, s)

  unfoldable pub multiplexer : Outside → Handler (State D N)
  multiplexer o r = serve_outcome (serve o) (dispatch unescape routes r.method r.path) r

  -- The server's handler; the allowed origin is `CORS_ALLOWED_ORIGIN`, or "*".
  unfoldable pub server : Environment → Outside → Handler (State D N)
  server env o =
      with_request_id o.request_id
        (with_cors cors (env_or_default env "CORS_ALLOWED_ORIGIN" "*") (multiplexer o))
