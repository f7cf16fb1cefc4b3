-- ===== src/Platform/Lifecycle.antt =====
-- An application's life across the services: what document-service and offer-acceptance-service do
-- to it, on a network where application-management-service answers.
use psr_pl.Base.{
  ℕ, String, List, true, false, Option, some, ◌==◌, if◌then◌else◌, ◌≡◌, ◌⊎◌, inl, inr, arith,
  Bool-cases, sym, ◌∙◌,
}
use psr_pl.Go.{Result, ok, Result-cases}
use psr_pl.Http.{Payload, HttpClient, put_status}
use psr_pl.Web.{Environment}
use psr_pl.Application.Model.{Application}
use psr_pl.Application.Repository.{Repository, IsRepository}
use psr_pl.Application.Sessions.{SessionStore}
use psr_pl.Application.Workflow.{WorkflowStarter}
use psr_pl.Application.OfferLog.{OfferLogAdapter}
use psr_pl.Application.Service
use psr_pl.Application.Service.{State}
use psr_pl.Application.Lifecycle.{update_status_succeeds}
use psr_pl.Application.Handler.{Floats}
use psr_pl.Application.Server.{Decoders, Encoders, Outside}
use psr_pl.Documents.Model.{Record}
use psr_pl.Documents.Repository as DocumentRepository
use psr_pl.Documents.Service as DocumentService
use psr_pl.Documents.Handler as DocumentHandler
use psr_pl.Documents.Submit.{or_fresh, completes, submit_document_succeeds}
use psr_pl.Acceptance.Model.{EsignRecord}
use psr_pl.Acceptance.Repository as EsignRepository
use psr_pl.Acceptance.Service as EsignService
use psr_pl.Acceptance.Handler as EsignHandler
use psr_pl.Acceptance.Esign.{esign_succeeds}
use psr_pl.Platform.Network.{IsPathId}
use psr_pl.Platform.Dispatch.{Unescapes}
use psr_pl.Platform.Calls.{
  IsJson, network, document_client, esign_client, told, put_status-update_status,
}

-- From one table to the other, the stored application has got a status at a time, and nothing else
-- of it or of any other application has changed.
abbrev pub Advanced :
    {D : Type 0} → (D → String → Option Application) → ℕ → String → String → D → D → Type 0
Advanced stored now id status t after =
    (old : Application) × (stored t id ≡ some old)
    × ((j : String)
        → stored after j ≡ (
            if id == j
            then some (record old { status = status; last_action_at = now })
            else stored t j))

module _ {D L W : Type 0} {repo : Repository D} (offers : OfferLogAdapter L)
    (sessions : SessionStore D) (workflow : WorkflowStarter W) (floats : Floats) (decode : Decoders)
    (encode : Encoders) (unescape : String → String) (env : Environment) (base_url : String)
    (payloads : Payload → Result String) {stored : D → String → Option Application}
    (law : IsRepository repo stored) (unescapes : Unescapes unescape)
    (json : IsJson payloads decode) where
  abbrev application_network : Outside → HttpClient (State D L W)
  application_network =
      network repo offers sessions workflow floats decode encode unescape env base_url payloads

  -- A status update that a service is told to have succeeded has advanced the stored application.
  pub put_status_advances :
      (o : Outside) (req_id id status : String) (s t : State D L W)
      → IsPathId id
      → put_status (application_network o) req_id base_url id status s ≡ (ok tt, t)
      → Advanced stored o.now id status s.table t.table
  put_status_advances o req_id id status s t p h =
      let update = Service.update_status repo offers sessions workflow o.now id status s in
      let same : told update ≡ (ok tt, t) =
        sym (
          put_status-update_status repo offers sessions workflow floats decode encode unescape env
            base_url payloads unescapes json o req_id id status s p)
        ∙ h in
      elim (Result-cases update.0) [
        | inl (app, done) ↦
            let (old, there, new, writes, _, _) =
              update_status_succeeds offers sessions workflow law o.now id status s app done in
            (old, there, λ j. ground (arith, writes j))
        | inr (e, failed) ↦ absurd (ground arith)
      ]

  -- On the platform, a successful submission of a document either completes the record and has
  -- advanced the stored application to OFFER_ACCEPTED, or does not complete it and has left
  -- application-management-service alone.
  pub submit_document_advances :
      {T : Type 0} {documents : DocumentRepository.Repository T} {held : T → String → Option Record}
      → DocumentRepository.IsRepository documents held
      → (o : Outside) (req_id id document : String) (now : ℕ)
        (s : DocumentService.State T (State D L W)) (r : Record)
      → IsPathId id
      → (DocumentService.submit documents
          (document_client repo offers sessions workflow floats decode encode unescape env base_url
            payloads o req_id)
          id
          document
          now
          s).0
        ≡ ok r
      → let after =
          (DocumentService.submit documents
            (document_client repo offers sessions workflow floats decode encode unescape env
              base_url payloads o req_id)
            id
            document
            now
            s).1 in
        let old = or_fresh id (held s.table id) in
        ((completes old document now ≡ true)
          × Advanced stored o.now id "OFFER_ACCEPTED" s.applications.table after.applications.table)
        ⊎ ((completes old document now ≡ false) × (after.applications ≡ s.applications))
  unfolding DocumentHandler.application_client
  submit_document_advances {documents} {held} kept o req_id id document now s r p h =
      let client =
        document_client repo offers sessions workflow floats decode encode unescape env base_url
          payloads o req_id in
      let after = (DocumentService.submit documents client id document now s).1 in
      let (known, new, writes, called) =
        submit_document_succeeds client kept id document now s r h in
      elim (Bool-cases (completes (or_fresh id (held s.table id)) document now)) [
        | inl full ↦ inl (
          full,
          put_status_advances o req_id id "OFFER_ACCEPTED" s.applications after.applications p
              (ground arith),
        )
        | inr rest ↦ inr (rest, ground arith)
      ]

  -- On the platform, a successful e-signature has advanced the stored application to
  -- DOCUMENTS_REQUIRED.
  pub esign_advances :
      {T : Type 0} {signatures : EsignRepository.Repository T}
      {held : T → String → Option EsignRecord}
      → EsignRepository.IsRepository signatures held
      → (o : Outside) (req_id id : String) (accepted : List String) (now : ℕ)
        (s : EsignService.State T (State D L W)) (r : EsignRecord)
      → IsPathId id
      → (EsignService.esign signatures
          (esign_client repo offers sessions workflow floats decode encode unescape env base_url
            payloads o req_id)
          id
          accepted
          now
          s).0
        ≡ ok r
      → let after =
          (EsignService.esign signatures
            (esign_client repo offers sessions workflow floats decode encode unescape env base_url
              payloads o req_id)
            id
            accepted
            now
            s).1 in
        Advanced stored o.now id "DOCUMENTS_REQUIRED" s.applications.table after.applications.table
  unfolding EsignHandler.application_client
  esign_advances {signatures} kept o req_id id accepted now s r p h =
      let client =
        esign_client repo offers sessions workflow floats decode encode unescape env base_url
          payloads o req_id in
      let after = (EsignService.esign signatures client id accepted now s).1 in
      let (_, _, _, _, called) = esign_succeeds client kept id accepted now s r h in
      put_status_advances o req_id id "DOCUMENTS_REQUIRED" s.applications after.applications p
        called
