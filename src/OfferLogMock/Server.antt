-- ===== src/OfferLogMock/Server.antt =====
-- `main` of application-management-service/cmd/offerlog-mock/main.go: the routes and the server over
-- the store. `unescape` and the encoders and decoders of `encoding/json` are parameters, and `failure`
-- is the text of an error; the socket is left out.
use psr_pl.Base.{String, List, [], ◌∷◌}
use psr_pl.Go.{Error, Result}
use psr_pl.Http.{Reply, Body, json, message}
use psr_pl.Web.{
  Route, route, dispatch, Headers, Response, Handler, respond, write_header, http_error, path_value,
  serve_outcome, Environment, env_or_default,
}
use psr_pl.OfferLogMock.Store.{Offer, Store}
use psr_pl.OfferLogMock.Store as Mock

pub data Endpoint : Type 0 where
  health validate put_status : Endpoint

unfoldable pub routes : List (Route Endpoint)
routes =
    route "GET" "/healthz" health
    ∷ route "POST" "/invitations/validate" validate
    ∷ route "PUT" "/invitations/{intakeId}/status" put_status
    ∷ []

-- What a request's body holds.
pub record Decoders : Type 0 where
  pub token : String → Result String
  pub status : String → Result String

pub record Encoders : Type 0 where
  pub offer : Offer → String
  pub status : String → String
  pub failure : Error → String

-- Two answers of `randomHex`.
pub record Outside : Type 0 where
  pub intake_hex : String
  pub offer_hex : String

-- `port` and what it is if the variable is not set.
unfoldable pub port : Environment → String
port env = env_or_default env "OFFERLOG_MOCK_PORT" "9090"

module _ (decode : Decoders) (encode : Encoders) (unescape : String → String) where
  -- `writeJSON` for a value, and `http.Error` for an error.
  abbrev write : {A : Type 0} → (A → String) → Headers → Reply A → Body A → Response
  write value headers reply (json a) = respond value encode.failure headers reply
  write value headers reply (message e) = http_error reply.status (encode.failure e) headers

  abbrev answer : {A : Type 0} → (A → String) → Headers → Reply A × Store → Response × Store
  answer value headers (reply, s) = (write value headers reply reply.body, s)

  abbrev pub serve : Outside → Endpoint → List String → Handler Store
  serve o health values r headers s = (write_header 200 headers, s)
  serve o validate values r headers s =
      answer encode.offer headers
        (Mock.validate (o.intake_hex, o.offer_hex) (decode.token r.payload) s)
  serve o put_status values r headers s =
      answer encode.status headers (Mock.put_status (path_value values) (decode.status r.payload) s)

  -- The server's handler, on the store that starts as `new_store`.
  unfoldable pub server : Outside → Handler Store
  server o r = serve_outcome (serve o) (dispatch unescape routes r.method r.path) r
