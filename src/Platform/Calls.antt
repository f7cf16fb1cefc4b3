-- ===== src/Platform/Calls.antt =====
-- What the calls of the other services do in application-management-service, through its server.
use Prim.Native.String
use psr_pl.Base.{String, [], ◌∷◌, ◌≡◌, arith, refl, ◌≢◌, inl, inr, List, if◌then◌else◌}
use psr_pl.Go.{Result, ok, err, is, Result-cases, status_code, application_not_found}
use psr_pl.Http.{Payload, Request, HttpClient, fields, put_status, status_request}
use psr_pl.Web.{Incoming, Environment, respond, dispatch, found, request_id}
use psr_pl.Application.Model.{Application}
use psr_pl.Application.Repository.{Repository}
use psr_pl.Application.Sessions.{SessionStore}
use psr_pl.Application.Workflow.{WorkflowStarter}
use psr_pl.Application.OfferLog.{OfferLogAdapter}
use psr_pl.Application.Service
use psr_pl.Application.Service.{State}
use psr_pl.Application.Handler
use psr_pl.Application.Handler.{Floats, ValidateSessionBody}
use psr_pl.Application.Server.{
  Decoders, Encoders, Outside, Endpoint, update_status, routes, serve, server,
}
use psr_pl.Application.Serving.{common_headers, server-found}
use psr_pl.Documents.Service as DocumentService
use psr_pl.Documents.Handler as DocumentHandler
use psr_pl.Acceptance.Service as EsignService
use psr_pl.Acceptance.Handler as EsignHandler
use psr_pl.Platform.Network.{http_client, received, for_path, deliver-append, IsPathId}
use psr_pl.Platform.Dispatch.{Unescapes, dispatch_update_status}

-- What one side encodes as JSON, the other side decodes.
pub record IsJson (encode : Payload → Result String) (decode : Decoders) : Type 0 where
  pub status :
      (status : String)
      → (body : String) × (encode (fields (("status", status) ∷ [])) ≡ ok body)
        × (decode.status body ≡ ok status)
  pub session :
      (token id : String)
      → (body : String) × (encode (fields (("token", token) ∷ ("applicationId", id) ∷ []))
          ≡ ok body)
        × (decode.session body ≡ ok (record { token = token; application_id = id }))

-- What the client is told of an update: nothing, or the status code of the failure.
abbrev pub told : {S : Type 0} → Result Application × S → Result (Unit {0}) × S
told (ok app, s) = (ok tt, s)
told (err e, s) = (
  err (
      status_code "application-management-service rejected status update"
        (if is e application_not_found then 404 else 500)),
  s,
)

module _ {D L W : Type 0} (repo : Repository D) (offers : OfferLogAdapter L)
    (sessions : SessionStore D) (workflow : WorkflowStarter W) (floats : Floats) (decode : Decoders)
    (encode : Encoders) (unescape : String → String) (env : Environment) (base_url : String)
    (payloads : Payload → Result String) where
  -- The client of the other services on a network where application-management-service answers, at
  -- a time and with random values that are given.
  abbrev pub network : Outside → HttpClient (State D L W)
  network o =
      http_client base_url
        (server repo offers sessions workflow floats decode encode unescape env o) payloads

  -- The clients that document-service and offer-acceptance-service have there.
  abbrev pub document_client : Outside → String → DocumentService.StatusUpdater (State D L W)
  document_client o req_id = DocumentHandler.application_client (network o) base_url req_id

  abbrev pub esign_client : Outside → String → EsignService.StatusUpdater (State D L W)
  esign_client o req_id = EsignHandler.application_client (network o) base_url req_id

  -- What a request of another service meets there.
  abbrev pub arrived : Outside → Request → String → Incoming
  arrived o r path = let i = for_path r path in record i { request_id = request_id o.request_id i }

  -- A request for a path that is routed is answered by the path's handler.
  pub send-found :
      (o : Outside) (r : Request) (path : String) (s : State D L W) (h : Endpoint)
      (values : List String)
      → r.url ≡ String.◌++◌ base_url path
      → r.method ≢ "OPTIONS"
      → dispatch unescape routes r.method path ≡ found h values
      → (network o).send r s
        ≡ received base_url
            (server repo offers sessions workflow floats decode encode unescape env o)
            (serve repo offers sessions workflow floats decode encode unescape o h values
              (arrived o r path)
              (common_headers env o (for_path r path) [])
              s)
  unfolding http_client
  send-found o r path s h values e m found_there =
      rw
        (
          deliver-append base_url path
              (server repo offers sessions workflow floats decode encode unescape env o) r s e,
          server-found repo offers sessions workflow floats decode encode unescape env o
              (for_path r path) [] s h values m found_there,
        )
        refl

  -- A status update of another service is an `UpdateStatus` of application-management-service: it
  -- leaves the same state, and reports success just if that one succeeds.
  pub put_status-update_status :
      Unescapes unescape
      → IsJson payloads decode
      → (o : Outside) (req_id id status : String) (s : State D L W) → IsPathId id
      → put_status (network o) req_id base_url id status s
        ≡ told (Service.update_status repo offers sessions workflow o.now id status s)
  unfolding put_status respond Handler.update_status http_client
  put_status-update_status unescapes json o req_id id status s p =
      let (body, encoded, decoded) = json.status status in
      let answered =
        send-found o (status_request req_id base_url id body)
          (String.◌++◌ "/internal/applications/" (String.◌++◌ id "/status")) s update_status
          (id ∷ []) refl (cc) (dispatch_update_status unescape unescapes id p) in
      elim (Result-cases
        (Service.update_status repo offers sessions workflow o.now id status s).0) [
          | inl (app, done) ↦ ground arith
          | inr (e, failed) ↦ ground arith
        ]
