-- ===== src/Platform/Journey.antt =====
-- From one service's success to another's report, on a network where application-management-service
-- answers both.
use psr_pl.Base.{ℕ, String, List, true, Option, some, ◌≡◌, inl, inr, arith, refl, eq_refl}
use psr_pl.Go.{Result, ok, Exec}
use psr_pl.Http.{Payload}
use psr_pl.Web.{Environment}
use psr_pl.Application.Model.{Application}
use psr_pl.Application.Repository.{Repository, IsRepository}
use psr_pl.Application.Sessions.{SessionStore, SessionRecord}
use psr_pl.Application.Workflow.{WorkflowStarter}
use psr_pl.Application.OfferLog.{OfferLogAdapter}
use psr_pl.Application.Service.{State}
use psr_pl.Application.Issued.{IsSessionStore}
use psr_pl.Application.Handler.{Floats}
use psr_pl.Application.Server.{Decoders, Encoders, Outside}
use psr_pl.Documents.Model.{Record}
use psr_pl.Documents.Repository as DocumentRepository
use psr_pl.Documents.Service as DocumentService
use psr_pl.Documents.Submit.{or_fresh, completes}
use psr_pl.Acceptance.Model.{EsignRecord}
use psr_pl.Acceptance.Repository as EsignRepository
use psr_pl.Acceptance.Service as EsignService
use psr_pl.Status.Model.{WorkflowStatus}
use psr_pl.Status.Translate.{for_application_status}
use psr_pl.Status.Client
use psr_pl.Status.Reader.{ExecutionReader}
use psr_pl.Status.Service as StatusService
use psr_pl.Status.Service.{get_status}
use psr_pl.Platform.Network.{IsPathId}
use psr_pl.Platform.Dispatch.{Unescapes}
use psr_pl.Platform.Calls.{IsJson, document_client, esign_client}
use psr_pl.Platform.Lookups.{ReadsBack, client}
use psr_pl.Platform.Lifecycle.{Advanced, submit_document_advances, esign_advances}
use psr_pl.Platform.Report.{reports_stored}

module _ {D L W : Type 0} (repo : Repository D) (offers : OfferLogAdapter L)
    (sessions : SessionStore D) (workflow : WorkflowStarter W) (floats : Floats) (decode : Decoders)
    (encode : Encoders) (unescape : String → String) (env : Environment) (base_url : String)
    (payloads : Payload → Result String) where
  -- A submission to document-service, an e-signature and a report, each on the platform.
  abbrev pub submit_document :
      {T : Type 0}
      → DocumentRepository.Repository T
      → Outside
      → String
      → String
      → String
      → ℕ
      → Exec (DocumentService.State T (State D L W)) Record
  submit_document documents o req_id id document now =
      DocumentService.submit documents
        (document_client repo offers sessions workflow floats decode encode unescape env base_url
          payloads o req_id)
        id document now

  abbrev pub sign :
      {T : Type 0}
      → EsignRepository.Repository T
      → Outside
      → String
      → String
      → List String
      → ℕ
      → Exec (EsignService.State T (State D L W)) EsignRecord
  sign signatures o req_id id accepted now =
      EsignService.esign signatures
        (esign_client repo offers sessions workflow floats decode encode unescape env base_url
          payloads o req_id)
        id accepted now

  abbrev pub report :
      {E : Type 0}
      → Client.Decoders
      → ExecutionReader E
      → Outside
      → String
      → String
      → String
      → Exec (StatusService.State (State D L W) E) WorkflowStatus
  report read executions o req_id token id =
      get_status
        (client repo offers sessions workflow floats decode encode unescape env base_url payloads
          read o req_id)
        executions token id

module _ {D L W E : Type 0} {repo : Repository D} {sessions : SessionStore D}
    (offers : OfferLogAdapter L) (workflow : WorkflowStarter W) (floats : Floats)
    (decode : Decoders) (encode : Encoders) (unescape : String → String) (env : Environment)
    (base_url : String) (payloads : Payload → Result String) (read : Client.Decoders)
    {stored : D → String → Option Application} {kept : D → String → Option SessionRecord}
    (law : IsRepository repo stored) (store : IsSessionStore sessions kept)
    (apart : (now : ℕ) (token : String) (t : D) (j : String)
      → stored (sessions.validate now token t).1 j ≡ stored t j)
    (unescapes : Unescapes unescape) (json : IsJson payloads decode) (reads : ReadsBack encode read)
    (executions : ExecutionReader E) where
  -- What a report says once the execution of a stored application has succeeded.
  pub report_of :
      (o : Outside) (req_id token id decision status : String) (before : D) (now : ℕ)
      (s : StatusService.State (State D L W) E) (app : Application) (w : WorkflowStatus)
      → IsPathId id
      → stored before id ≡ some app
      → Advanced stored now id status before s.applications.table
      → (executions.outcome app.execution_arn s.executions).0 ≡ ok ("SUCCEEDED", decision)
      → (report repo offers sessions workflow floats decode encode unescape env base_url payloads
          read executions o req_id token id s).0
        ≡ ok w
      → w ≡ for_application_status id status
  report_of o req_id token id decision status before now s app w p there (old, found, writes) over
        shown =
      let new : Application = record app { status = status; last_action_at = now } in
      let (reported, _) =
        reports_stored offers workflow floats decode encode unescape env base_url payloads read law
          store apart unescapes json reads executions o req_id token id decision s new w p
          (ground (arith, writes id, eq_refl id)) over shown in
      ground arith

  -- On the platform, once the execution of an application has succeeded and document-service has
  -- accepted its last document, a report that follows says OFFER_ACCEPTED: it follows the stored
  -- status, not the outcome at which the execution ended.
  pub submit-get_status :
      {T : Type 0} {documents : DocumentRepository.Repository T} {held : T → String → Option Record}
      (kept_documents : DocumentRepository.IsRepository documents held) (o later : Outside)
      (req_id other_id id document token decision : String) (now : ℕ)
      (s : DocumentService.State T (State D L W)) (t : StatusService.State (State D L W) E)
      (r : Record) (app : Application) (w : WorkflowStatus)
      → IsPathId id
      → completes (or_fresh id (held s.table id)) document now ≡ true
      → stored s.applications.table id ≡ some app
      → (submit_document repo offers sessions workflow floats decode encode unescape env base_url
          payloads documents o req_id id document now s).0
        ≡ ok r
      → t.applications
        ≡ (submit_document repo offers sessions workflow floats decode encode unescape env base_url
            payloads documents o req_id id document now s).1.applications
      → (executions.outcome app.execution_arn t.executions).0 ≡ ok ("SUCCEEDED", decision)
      → (report repo offers sessions workflow floats decode encode unescape env base_url payloads
          read executions later other_id token id t).0
        ≡ ok w
      → w.status ≡ "OFFER_ACCEPTED"
  unfolding for_application_status
  submit-get_status kept_documents o later req_id other_id id document token decision now s t r app
        w p full there done next over shown =
      elim (submit_document_advances offers sessions workflow floats decode encode unescape env
        base_url payloads law unescapes json kept_documents o req_id id document now s r p done) [
          | inl (c, advanced) ↦
              rw
                (report_of later other_id token id decision "OFFER_ACCEPTED" s.applications.table
                  o.now t app w p there (rw next advanced) over shown)
                refl
          | inr (c, same) ↦ absurd (ground arith)
        ]

  -- On the platform, once the execution of an application has succeeded and it was signed with
  -- offer-acceptance-service, a report that follows says DOCUMENTS_REQUIRED.
  pub esign-get_status :
      {T : Type 0} {signatures : EsignRepository.Repository T}
      {held : T → String → Option EsignRecord}
      (kept_signatures : EsignRepository.IsRepository signatures held) (o later : Outside)
      (req_id other_id id token decision : String) (accepted : List String) (now : ℕ)
      (s : EsignService.State T (State D L W)) (t : StatusService.State (State D L W) E)
      (r : EsignRecord) (app : Application) (w : WorkflowStatus)
      → IsPathId id
      → stored s.applications.table id ≡ some app
      → (sign repo offers sessions workflow floats decode encode unescape env base_url payloads
          signatures o req_id id accepted now s).0
        ≡ ok r
      → t.applications
        ≡ (sign repo offers sessions workflow floats decode encode unescape env base_url payloads
            signatures o req_id id accepted now s).1.applications
      → (executions.outcome app.execution_arn t.executions).0 ≡ ok ("SUCCEEDED", decision)
      → (report repo offers sessions workflow floats decode encode unescape env base_url payloads
          read executions later other_id token id t).0
        ≡ ok w
      → w.status ≡ "DOCUMENTS_REQUIRED"
  unfolding for_application_status
  esign-get_status kept_signatures o later req_id other_id id token decision accepted now s t r app
        w p there done next over shown =
      let advanced =
        esign_advances offers sessions workflow floats decode encode unescape env base_url payloads
          law unescapes json kept_signatures o req_id id accepted now s r p done in
      rw
        (report_of later other_id token id decision "DOCUMENTS_REQUIRED" s.applications.table o.now
          t app w p there (rw next advanced) over shown)
        refl
