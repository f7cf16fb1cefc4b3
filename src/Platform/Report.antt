-- ===== src/Platform/Report.antt =====
-- What workflow-status-service reports on the platform, where application-management-service answers
-- its questions.
use psr_pl.Base.{ℕ, String, Option, some, ◌≡◌, inl, inr, arith}
use psr_pl.Go.{Result, ok, Result-cases}
use psr_pl.Http.{Payload}
use psr_pl.Web.{Environment}
use psr_pl.Application.Model.{Application}
use psr_pl.Application.Repository.{Repository, IsRepository}
use psr_pl.Application.Sessions.{SessionStore, SessionRecord}
use psr_pl.Application.Workflow.{WorkflowStarter}
use psr_pl.Application.OfferLog.{OfferLogAdapter}
use psr_pl.Application.Service
use psr_pl.Application.Service.{State}
use psr_pl.Application.Issued.{IsSessionStore}
use psr_pl.Application.Reading.{authenticate_keeps, execution_arn_keeps}
use psr_pl.Application.Lifecycle.{get_finds, execution_arn_finds}
use psr_pl.Application.Login.{authenticate_succeeds}
use psr_pl.Platform.Admission.{Holds}
use psr_pl.Application.Handler.{Floats}
use psr_pl.Application.Server.{Decoders, Encoders, Outside}
use psr_pl.Status.Model.{WorkflowStatus}
use psr_pl.Status.Translate.{for_application_status}
use psr_pl.Status.Client
use psr_pl.Status.Reader.{ExecutionReader}
use psr_pl.Status.Service as StatusService
use psr_pl.Status.Service.{get_status}
use psr_pl.Platform.Network.{IsPathId}
use psr_pl.Platform.Dispatch.{Unescapes}
use psr_pl.Platform.Calls.{IsJson}
use psr_pl.Platform.Lookups.{
  ReadsBack, client, validate_session-authenticate, current_status-get, execution_arn-execution_arn,
}

module _ {D L W E : Type 0} {repo : Repository D} {sessions : SessionStore D}
    (offers : OfferLogAdapter L) (workflow : WorkflowStarter W) (floats : Floats)
    (decode : Decoders) (encode : Encoders) (unescape : String → String) (env : Environment)
    (base_url : String) (payloads : Payload → Result String) (read : Client.Decoders)
    {stored : D → String → Option Application} {kept : D → String → Option SessionRecord}
    (law : IsRepository repo stored) (store : IsSessionStore sessions kept)
    (apart : (now : ℕ) (token : String) (t : D) (j : String)
      → stored (sessions.validate now token t).1 j ≡ stored t j)
    (unescapes : Unescapes unescape) (json : IsJson payloads decode) (reads : ReadsBack encode read)
    (executions : ExecutionReader E) where
  -- On the platform, once the execution of a stored application has succeeded, a report is the one
  -- for the status that is stored, whatever outcome the execution ended with, and it is given only
  -- for a token that was issued for this very application and has not expired.
  pub reports_stored :
      (o : Outside) (req_id token id decision : String) (s : StatusService.State (State D L W) E)
      (app : Application) (w : WorkflowStatus)
      → IsPathId id
      → stored s.applications.table id ≡ some app
      → (executions.outcome app.execution_arn s.executions).0 ≡ ok ("SUCCEEDED", decision)
      → (get_status
          (client repo offers sessions workflow floats decode encode unescape env base_url payloads
            read o req_id)
          executions
          token
          id
          s).0
        ≡ ok w
      → (w ≡ for_application_status id app.status) × Holds kept o.now token id s.applications.table
  unfolding get_status
  reports_stored o req_id token id decision s app w p there over h =
      let session =
        Service.authenticate repo offers sessions workflow o.now token id s.applications in
      let linked = Service.execution_arn repo offers sessions workflow id session.1 in
      let got = Service.get repo offers sessions workflow id linked.1 in
      let asked =
        validate_session-authenticate repo offers sessions workflow floats decode encode unescape
          env base_url payloads read unescapes json reads o req_id token id s.applications in
      let link =
        execution_arn-execution_arn repo offers sessions workflow floats decode encode unescape env
          base_url payloads read unescapes reads o req_id id session.1 p in
      let live =
        current_status-get repo offers sessions workflow floats decode encode unescape env base_url
          payloads read unescapes reads o req_id id linked.1 p in
      let kept_first =
        authenticate_keeps sessions offers workflow law apart o.now token id id s.applications in
      let kept_next = execution_arn_keeps sessions offers workflow law apart id id session.1 in
      elim (Result-cases session.0) [
        | inl (tt, valid) ↦ elim (Result-cases linked.0) [
          | inl (arn, found) ↦
              let (named, at, same) =
                execution_arn_finds offers sessions workflow law id session.1 arn found in
              elim (Result-cases got.0) [
                | inl (now, shown) ↦
                    let current = get_finds offers sessions workflow law id linked.1 now shown in
                    (
                      ground arith,
                      authenticate_succeeds offers workflow law store o.now token id s.applications
                          valid,
                    )
                | inr (e, failed) ↦ absurd (ground arith)
              ]
          | inr (e, failed) ↦ absurd (ground arith)
        ]
        | inr (e, failed) ↦ absurd (ground arith)
      ]
