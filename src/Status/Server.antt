-- ===== src/Status/Server.antt =====
-- workflow-status-service/cmd/server/main.go and `Register` of internal/workflowstatus/handler.go:
-- the settings, the routes and the server that the handlers stand in. The clients of AWS, the sockets
-- and the shutdown are left out; the encoders and decoders of `encoding/json` are parameters.
use psr_pl.Base.{String, List, [], ◌∷◌}
use psr_pl.Go.{Error}
use psr_pl.Http.{HttpClient, Reply}
use psr_pl.Web.{
  Route, route, dispatch, Headers, get_header, Incoming, Response, Handler, respond, write_header,
  path_value, serve_outcome, with_request_id, Cors, with_cors, Environment, Startup, started,
  require_env, env_or_default, ◌>>=◌,
}
use psr_pl.Status.Model.{WorkflowStatus}
use psr_pl.Status.Reader.{ExecutionReader}
use psr_pl.Status.Client.{ApplicationClient, Decoders, application_client}
use psr_pl.Status.Service.{State}
use psr_pl.Status.Handler

pub record Settings : Type 0 where
  pub application_url : String
  pub port : String

unfoldable pub settings : Environment → Startup Settings
settings env = do
  application_url ← require_env env "APPLICATION_MANAGEMENT_BASE_URL"
  started (record { application_url = application_url; port = env_or_default env "PORT" "8086" })

-- `health` serves `/healthz` and `/readyz`.
pub data Endpoint : Type 0 where
  status health : Endpoint

unfoldable pub routes : List (Route Endpoint)
routes =
    route "GET" "/api/v1/workflow-status/applications/{id}/status" status
    ∷ route "GET" "/healthz" health
    ∷ route "GET" "/readyz" health
    ∷ []

abbrev pub cors : Cors
cors = record { methods = "GET, OPTIONS"; headers = "Content-Type, Authorization" }

-- `decode` reads the answers of application-management-service, whose address is the setting
-- `base_url`; `encode` and `failure` are what `json.NewEncoder` writes for a status and for an error.
-- The argument of `server` behind the environment is the random request id.
module _ {N E : Type 0} (http : HttpClient N) (executions : ExecutionReader E) (base_url : String)
    (decode : Decoders) (encode : WorkflowStatus → String) (failure : Error → String)
    (unescape : String → String) where
  abbrev answer : {A : Type 0} → (A → String) → Headers → Reply A × State N E → Response × State N E
  answer value headers (reply, s) = (respond value failure headers reply, s)

  -- The client of application-management-service sends the request's id on.
  abbrev client : Incoming → ApplicationClient N
  client r = application_client http decode base_url r.request_id

  -- The handler of an endpoint, with the values of the pattern's wildcards.
  abbrev pub serve : Endpoint → List String → Handler (State N E)
  serve status values r headers s = answer encode headers (
      Handler.status (client r) executions (get_header "Authorization" r.headers)
        (path_value values) s)
  serve health values r headers s = (write_header 200 headers, s)

  unfoldable pub multiplexer : Handler (State N E)
  multiplexer r = serve_outcome serve (dispatch unescape routes r.method r.path) r

  -- The server's handler; the allowed origin is `CORS_ALLOWED_ORIGIN`, or "*".
  unfoldable pub server : Environment → String → Handler (State N E)
  server env fresh =
      with_request_id fresh
        (with_cors cors (env_or_default env "CORS_ALLOWED_ORIGIN" "*") multiplexer)
