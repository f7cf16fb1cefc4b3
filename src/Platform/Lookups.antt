-- ===== src/Platform/Lookups.antt =====
-- What the other services read of application-management-service through its server.
use Prim.Native.String
use psr_pl.Base.{String, Bool, true, false, [], ◌∷◌, ◌≡◌, arith, refl, inl, inr, if◌then◌else◌}
use psr_pl.Go.{Result, ok, err, is, Result-cases, status_code, application_not_found}
use psr_pl.Http.{Payload, HttpClient}
use psr_pl.Web.{Environment, respond}
use psr_pl.Application.Model.{Application}
use psr_pl.Application.Repository.{Repository}
use psr_pl.Application.Sessions.{SessionStore}
use psr_pl.Application.Workflow.{WorkflowStarter}
use psr_pl.Application.OfferLog.{OfferLogAdapter}
use psr_pl.Application.Service
use psr_pl.Application.Service.{State}
use psr_pl.Application.Handler
use psr_pl.Application.Handler.{Floats}
use psr_pl.Application.Server
use psr_pl.Application.Server.{Encoders, Outside}
use psr_pl.OfferSelection.Sessions.{session_validator}
use psr_pl.Status.Client
use psr_pl.Status.Client.{application_client}
use psr_pl.Platform.Network.{http_client, IsPathId}
use psr_pl.Platform.Dispatch.{
  Unescapes, dispatch_current_status, dispatch_execution_arn, dispatch_validate_session,
}
use psr_pl.Platform.Calls
use psr_pl.Platform.Calls.{IsJson}

-- The answer of a session validation that was reached.
abbrev pub verdict : {S : Type 0} → Result (Unit {0}) × S → Result Bool × S
verdict (ok u, s) = (ok true, s)
verdict (err e, s) = (ok false, s)

-- What the client is told of a lookup.
abbrev pub looked_up : {A S : Type 0} → (A → String) → Result A × S → Result String × S
looked_up part (ok a, s) = (ok (part a), s)
looked_up part (err e, s) = (
  err (
      status_code "application-management-service returned status"
        (if is e application_not_found then 404 else 500)),
  s,
)

-- The clients read what the server's handlers write.
pub record ReadsBack (encode : Encoders) (decode : Client.Decoders) : Type 0 where
  pub valid : (b : Bool) → decode.valid (encode.valid b) ≡ ok b
  pub status : (status : String) → decode.status (encode.status status) ≡ ok status
  pub execution_arn : (arn : String) → decode.execution_arn (encode.execution_arn arn) ≡ ok arn

module _ {D L W : Type 0} (repo : Repository D) (offers : OfferLogAdapter L)
    (sessions : SessionStore D) (workflow : WorkflowStarter W) (floats : Floats)
    (decode : Server.Decoders) (encode : Encoders) (unescape : String → String) (env : Environment)
    (base_url : String) (payloads : Payload → Result String) (read : Client.Decoders) where
  abbrev network : Outside → HttpClient (State D L W)
  network =
      Calls.network repo offers sessions workflow floats decode encode unescape env base_url
        payloads

  -- workflow-status-service's client, on that network.
  abbrev pub client : Outside → String → Client.ApplicationClient (State D L W)
  client o req_id = application_client (network o) read base_url req_id

  pub validate_session-authenticate :
      Unescapes unescape
      → IsJson payloads decode
      → ReadsBack encode read
      → (o : Outside) (req_id token id : String) (s : State D L W)
      → (client o req_id).validate_session token id s
        ≡ verdict (Service.authenticate repo offers sessions workflow o.now token id s)
  unfolding application_client respond Handler.validate_session http_client
  validate_session-authenticate unescapes json reads o req_id token id s =
      let (body, encoded, decoded) = json.session token id in
      let answered =
        Calls.send-found repo offers sessions workflow floats decode encode unescape env base_url
          payloads o (Client.session_request (network o) read base_url req_id body)
          "/internal/sessions/validate" s Server.validate_session [] refl (cc)
          (dispatch_validate_session unescape unescapes) in
      elim (Result-cases (Service.authenticate repo offers sessions workflow o.now token id s).0) [
        | inl (u, done) ↦ ground (arith, reads.valid true)
        | inr (e, failed) ↦ ground (arith, reads.valid false)
      ]

  pub current_status-get :
      Unescapes unescape
      → ReadsBack encode read
      → (o : Outside) (req_id id : String) (s : State D L W) → IsPathId id
      → (client o req_id).current_status id s
        ≡ looked_up
            (λ (app : Application). app.status)
            (Service.get repo offers sessions workflow id s)
  unfolding application_client respond Handler.current_status http_client
  current_status-get unescapes reads o req_id id s p =
      let path = String.◌++◌ "/internal/applications/" (String.◌++◌ id "/status") in
      let answered =
        Calls.send-found repo offers sessions workflow floats decode encode unescape env base_url
          payloads o
          (Client.get_request (network o) read base_url req_id (String.◌++◌ base_url path)) path s
          Server.current_status (id ∷ []) refl (cc)
          (dispatch_current_status unescape unescapes id p) in
      elim (Result-cases (Service.get repo offers sessions workflow id s).0) [
        | inl (app, done) ↦ ground (arith, reads.status app.status)
        | inr (e, failed) ↦ ground arith
      ]

  pub execution_arn-execution_arn :
      Unescapes unescape
      → ReadsBack encode read
      → (o : Outside) (req_id id : String) (s : State D L W) → IsPathId id
      → (client o req_id).execution_arn id s
        ≡ looked_up (λ arn. arn) (Service.execution_arn repo offers sessions workflow id s)
  unfolding application_client respond Handler.execution_arn http_client
  execution_arn-execution_arn unescapes reads o req_id id s p =
      let path = String.◌++◌ "/internal/applications/" (String.◌++◌ id "/execution") in
      let answered =
        Calls.send-found repo offers sessions workflow floats decode encode unescape env base_url
          payloads o
          (Client.get_request (network o) read base_url req_id (String.◌++◌ base_url path)) path s
          Server.execution_arn (id ∷ []) refl (cc)
          (dispatch_execution_arn unescape unescapes id p) in
      elim (Result-cases (Service.execution_arn repo offers sessions workflow id s).0) [
        | inl (arn, done) ↦ ground (arith, reads.execution_arn arn)
        | inr (e, failed) ↦ ground arith
      ]

  -- pricing-orchestration-service's session check is the same one.
  pub session_validator-client :
      (o : Outside) (req_id token id : String) (s : State D L W)
      → (session_validator (network o) read.valid base_url req_id).validate_session token id s
        ≡ (client o req_id).validate_session token id s
  unfolding session_validator application_client
  session_validator-client o req_id token id s = refl
