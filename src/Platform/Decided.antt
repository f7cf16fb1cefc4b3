-- ===== src/Platform/Decided.antt =====
-- The workflow's last step on a network where application-management-service answers.
use psr_pl.Base.{
  [], ◌∷◌, ℕ, String, Option, some, ◌≡◌, inl, inr, arith, refl, ◌∙◌, ap, subst, sym, Bool-cases,
  ◌==◌, Option-cases,
}
use psr_pl.Go.{Result, ok, Result-cases}
use psr_pl.Http.{Payload, HttpClient, fields, put_status, status_url, status_request}
use psr_pl.Pricing.Model.{WorkflowInput, Decision, WorkflowState}
use psr_pl.Workflow.Effects.{update_status}
use psr_pl.Workflow.Machine.{update_application_status, running, declined, initial, Reach}
use psr_pl.Workflow.Invariant.{hard_pull_for, IsConcluded, Reach-Holds, initial-Holds}
use psr_pl.Web.{Environment}
use psr_pl.Application.Model.{Application}
use psr_pl.Application.Repository.{Repository, IsRepository}
use psr_pl.Application.Sessions.{SessionStore, SessionRecord}
use psr_pl.Application.Workflow.{WorkflowStarter}
use psr_pl.Application.OfferLog.{OfferLogAdapter}
use psr_pl.Application.Service.{State}
use psr_pl.Application.Issued.{IsSessionStore}
use psr_pl.Application.Handler.{Floats}
use psr_pl.Application.Server.{Decoders, Encoders, Outside}
use psr_pl.Status.Model.{WorkflowStatus}
use psr_pl.Status.Translate.{for_application_status}
use psr_pl.Status.Reported.{for_application_status-decide}
use psr_pl.Status.Client
use psr_pl.Status.Reader.{ExecutionReader}
use psr_pl.Status.Service as StatusService
use psr_pl.Platform.Network.{IsPathId}
use psr_pl.Platform.Dispatch.{Unescapes}
use psr_pl.Platform.Calls.{IsJson, network}
use psr_pl.Platform.Lookups.{ReadsBack}
use psr_pl.Platform.Lifecycle.{Advanced, put_status_advances}
use psr_pl.Platform.Journey.{report, report_of}

module _ {N : Type 0} (http : HttpClient N) (base_url : String) where
  -- The step's request is the status update of the other services, for the decision's outcome.
  update_status-put_status :
      (s t : WorkflowState) (n : N)
      → (update_status http base_url s n).0 ≡ ok t
      → (d : Decision) × (s.decision ≡ some d)
        × (t ≡ s)
        × (put_status http s.request_id base_url s.application_id d.outcome n
            ≡ (ok tt, (update_status http base_url s n).1))
  unfolding update_status put_status
  update_status-put_status s t n h = elim (Option-cases s.decision) [
    | inl absent ↦ absurd (ground arith)
    | inr (d, e) ↦ elim (Bool-cases (base_url == "")) [
      | inl unset ↦ absurd (ground arith)
      | inr set ↦ elim (Result-cases (http.encode (fields (("status", d.outcome) ∷ [])))) [
        | inl (body, encoded) ↦
            elim (Result-cases (http.new_request "PUT" (status_url base_url s.application_id))) [
              | inl (u, built) ↦
                  elim (Result-cases
                    (http.send (status_request s.request_id base_url s.application_id body) n).0) [
                      | inl (resp, sent) ↦ (d, e, ground arith, ground arith)
                      | inr (f, failed) ↦ absurd (ground arith)
                    ]
              | inr (f, failed) ↦ absurd (ground arith)
            ]
        | inr (f, failed) ↦ absurd (ground arith)
      ]
    ]
  ]

some_injective : {A : Type 0} {a b : A} → some a ≡ some b → a ≡ b
some_injective h = cc

declined_status :
    (id : String) → (for_application_status id declined.outcome).status ≡ declined.outcome
unfolding for_application_status
declined_status id = refl

-- What a decision of the workflow says is reported as itself.
decided_outcome :
    (input : WorkflowInput) (s : WorkflowState) (id : String) (d : Decision)
    → IsConcluded input s
    → s.decision ≡ some d
    → (for_application_status id d.outcome).status ≡ d.outcome
decided_outcome input s id d (own, inl r) e =
    rw (some_injective (sym e ∙ r.outcome)) (declined_status id)
decided_outcome input s id d (own, inr c) e =
    rw (some_injective (sym e ∙ c.outcome))
      (for_application_status-decide id ((c.answer).offer).priced (hard_pull_for input))

module _ {D L W E : Type 0} {repo : Repository D} {sessions : SessionStore D}
    (offers : OfferLogAdapter L) (workflow : WorkflowStarter W) (floats : Floats)
    (decode : Decoders) (encode : Encoders) (unescape : String → String) (env : Environment)
    (base_url : String) (payloads : Payload → Result String) (read : Client.Decoders)
    {stored : D → String → Option Application} {kept : D → String → Option SessionRecord}
    (law : IsRepository repo stored) (store : IsSessionStore sessions kept)
    (apart : (now : ℕ) (token : String) (t : D) (j : String)
      → stored (sessions.validate now token t).1 j ≡ stored t j)
    (unescapes : Unescapes unescape) (json : IsJson payloads decode) (reads : ReadsBack encode read)
    (executions : ExecutionReader E) where
  -- On the platform, when an execution that was started for an input has made its last step, the
  -- stored application of the input has the decision's outcome, and a report that follows the
  -- success says this outcome.
  pub update_status-get_status :
      {any : Type 0} (client : HttpClient any) (url : String) (input : WorkflowInput)
      (s t : WorkflowState) (o later : Outside) (n : State D L W)
      (late : StatusService.State (State D L W) E) (other_id token outcome : String)
      (app : Application) (w : WorkflowStatus)
      → IsPathId input.application_id
      → Reach client url (initial input) (running update_application_status s)
      → stored n.table input.application_id ≡ some app
      → (update_status
          (network repo offers sessions workflow floats decode encode unescape env base_url payloads
            o)
          base_url
          s
          n).0
        ≡ ok t
      → late.applications
        ≡ (update_status
            (network repo offers sessions workflow floats decode encode unescape env base_url
              payloads o)
            base_url
            s
            n).1
      → (executions.outcome app.execution_arn late.executions).0 ≡ ok ("SUCCEEDED", outcome)
      → (report repo offers sessions workflow floats decode encode unescape env base_url payloads
          read executions later other_id token input.application_id late).0
        ≡ ok w
      → (d : Decision) × (s.decision ≡ some d)
        × Advanced stored o.now input.application_id d.outcome n.table late.applications.table
        × (w.status ≡ d.outcome)
  update_status-get_status client url input s t o later n late other_id token outcome app w p r
        there done next over shown =
      let concluded : IsConcluded input s =
        Reach-Holds client url input r (initial-Holds client url input) in
      let (d, e, same, put) =
        update_status-put_status
          (network repo offers sessions workflow floats decode encode unescape env base_url payloads
            o)
          base_url s t n done in
      let after =
        (update_status
          (network repo offers sessions workflow floats decode encode unescape env base_url payloads
            o)
          base_url s n).1 in
      let own : s.application_id ≡ input.application_id =
        ap (λ (i : WorkflowInput). i.application_id) concluded.0 in
      let put_own =
        subst
          (λ (id : String).
            put_status
              (network repo offers sessions workflow floats decode encode unescape env base_url
                payloads o)
              s.request_id base_url id d.outcome n
            ≡ (ok tt, after))
          own put in
      let advanced =
        put_status_advances offers sessions workflow floats decode encode unescape env base_url
          payloads law unescapes json o s.request_id input.application_id d.outcome n after p
          put_own in
      let advanced_late : Advanced stored o.now input.application_id d.outcome n.table
          late.applications.table =
        rw next advanced in
      let reported =
        report_of offers workflow floats decode encode unescape env base_url payloads read law store
          apart unescapes json reads executions later other_id token input.application_id outcome
          d.outcome n.table o.now late app w p there advanced_late over shown in
      (
        d,
        e,
        advanced_late,
        rw reported (decided_outcome input s input.application_id d concluded e),
      )
