-- ===== src/Application/Server.antt =====
-- application-management-service/cmd/server/main.go and `Register` of internal/application/handler.go:
-- the settings, the routes and the server that the handlers stand in. The clients of AWS, the sockets
-- and the shutdown are left out; the encoders and decoders of `encoding/json` are parameters.
use psr_pl.Base.{ℕ, String, Bool, List, [], ◌∷◌}
use psr_pl.Go.{Error, Result}
use psr_pl.Http.{Reply}
use psr_pl.Web.{
  Route, route, dispatch, Headers, get_header, Incoming, Response, Handler, respond, write_header,
  path_value, serve_outcome, with_request_id, Cors, with_cors, Environment, Startup, started,
  require_env, env_or_default, ◌>>=◌,
}
use psr_pl.Application.Model.{Application}
use psr_pl.Application.Repository.{Repository}
use psr_pl.Application.Sessions.{SessionStore}
use psr_pl.Application.Workflow.{WorkflowStarter}
use psr_pl.Application.OfferLog.{OfferLogAdapter}
use psr_pl.Application.Service.{State, Ambient}
use psr_pl.Application.Handler
use psr_pl.Application.Handler.{
  Floats, ValidateInvitationBody, SubmitBody, LoginBody, LoginResponse, ValidateSessionBody,
}

pub record Settings : Type 0 where
  pub table_name : String
  pub offer_log_url : String
  pub state_machine_arn : String
  pub port : String

unfoldable pub settings : Environment → Startup Settings
settings env = do
  table_name ← require_env env "APPLICATION_TABLE_NAME"
  offer_log_url ← require_env env "OFFERLOG_BASE_URL"
  state_machine_arn ← require_env env "PRICING_STATE_MACHINE_ARN"
  started (record {
    table_name = table_name;
    offer_log_url = offer_log_url;
    state_machine_arn = state_machine_arn;
    port = env_or_default env "PORT" "8081";
  })

pub data Endpoint : Type 0 where
  validate_invitation submit login status : Endpoint
  update_status current_status execution_arn validate_session : Endpoint
  -- `/healthz` and `/readyz`
  health : Endpoint

unfoldable pub routes : List (Route Endpoint)
routes =
    route "POST" "/api/v1/application-management/invitations/validate" validate_invitation
    ∷ route "POST" "/api/v1/application-management/applications" submit
    ∷ route "POST" "/api/v1/application-management/applications/login" login
    ∷ route "GET" "/api/v1/application-management/applications/{id}/status" status
    ∷ route "PUT" "/internal/applications/{id}/status" update_status
    ∷ route "GET" "/internal/applications/{id}/status" current_status
    ∷ route "GET" "/internal/applications/{id}/execution" execution_arn
    ∷ route "POST" "/internal/sessions/validate" validate_session
    ∷ route "GET" "/healthz" health
    ∷ route "GET" "/readyz" health
    ∷ []

abbrev pub cors : Cors
cors = record {
  methods = "GET, POST, PUT, OPTIONS";
  headers = "Content-Type, Authorization, X-Channel-ID";
}

-- `json.NewDecoder(r.Body).Decode` into the body of each handler.
pub record Decoders : Type 0 where
  pub invitation : String → Result String
  pub submit : String → Result SubmitBody
  pub login : String → Result LoginBody
  pub status : String → Result String
  pub session : String → Result ValidateSessionBody

-- What `json.NewEncoder` writes for the value of each handler, and for an error.
pub record Encoders : Type 0 where
  pub invitation : ValidateInvitationBody → String
  pub application : Application → String
  pub login : LoginResponse → String
  pub status : String → String
  pub execution_arn : String → String
  pub valid : Bool → String
  pub failure : Error → String

-- What a request meets besides the systems: the clock, the new UUID, the random token, and the random
-- request id.
pub record Outside : Type 0 where
  pub now : ℕ
  pub uuid : String
  pub token : Result String
  pub request_id : String

-- What `Submit` takes from outside, the request's id included.
abbrev ambient : Outside → Incoming → Ambient
ambient o r = record { now = o.now; uuid = o.uuid; request_id = r.request_id }

module _ {D L W : Type 0} (repo : Repository D) (offers : OfferLogAdapter L)
    (sessions : SessionStore D) (workflow : WorkflowStarter W) (floats : Floats) (decode : Decoders)
    (encode : Encoders) (unescape : String → String) where
  abbrev answer :
      {A : Type 0} → (A → String) → Headers → Reply A × State D L W → Response × State D L W
  answer value headers (reply, s) = (respond value encode.failure headers reply, s)

  -- The handler of an endpoint, with the values of the pattern's wildcards.
  abbrev pub serve : Outside → Endpoint → List String → Handler (State D L W)
  serve o validate_invitation values r headers s = answer encode.invitation headers (
      Handler.validate_invitation repo offers sessions workflow floats (decode.invitation r.payload)
        s)
  serve o submit values r headers s = answer encode.application headers (
      Handler.submit repo offers sessions workflow floats (ambient o r)
        (get_header "X-Channel-Id" r.headers) (decode.submit r.payload) s)
  serve o login values r headers s =
      answer encode.login headers
        (Handler.login repo offers sessions workflow o.token o.now (decode.login r.payload) s)
  serve o status values r headers s = answer encode.application headers (
      Handler.status repo offers sessions workflow o.now (get_header "Authorization" r.headers)
        (path_value values) s)
  serve o update_status values r headers s = answer encode.application headers (
      Handler.update_status repo offers sessions workflow o.now (path_value values)
        (decode.status r.payload) s)
  serve o current_status values r headers s =
      answer encode.status headers
        (Handler.current_status repo offers sessions workflow (path_value values) s)
  serve o execution_arn values r headers s =
      answer encode.execution_arn headers
        (Handler.execution_arn repo offers sessions workflow (path_value values) s)
  serve o validate_session values r headers s =
      answer encode.valid headers
        (Handler.validate_session repo offers sessions workflow o.now (decode.session r.payload) s)
  serve o health values r headers s = (write_header 200 headers, s)

  unfoldable pub multiplexer : Outside → Handler (State D L W)
  multiplexer o r = serve_outcome (serve o) (dispatch unescape routes r.method r.path) r

  -- The server's handler; the allowed origin is `CORS_ALLOWED_ORIGIN`, or "*".
  unfoldable pub server : Environment → Outside → Handler (State D L W)
  server env o =
      with_request_id o.request_id
        (with_cors cors (env_or_default env "CORS_ALLOWED_ORIGIN" "*") (multiplexer o))
