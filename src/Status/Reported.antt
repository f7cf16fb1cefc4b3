-- ===== src/Status/Reported.antt =====
-- What an applicant is told.
use psr_pl.Base.{
  String, true, false, ◌==◌, if◌then◌else◌, ◌≡◌, ◌≢◌, ◌⊎◌, inl, inr, List, [], ◌∷◌, arith, eq_iff,
  All-Has, Has, sym, Has-decided,
}
use psr_pl.Go.{Error, Result, ok, err, Result-cases, wrap, sentinel, unauthorized}
use psr_pl.Pricing.Model.{PricedOffer, CreditSummary}
use psr_pl.Pricing.Decision.{decide}
use psr_pl.Status.Model.{WorkflowStatus}
use psr_pl.Status.Translate.{for_application_status, for_error}
use psr_pl.Status.Reader.{ExecutionReader}
use psr_pl.Status.Client.{ApplicationClient}
use psr_pl.Status.Service.{State, get_status}

-- The statuses that have a report of their own once the workflow has ended.
abbrev pub reported_statuses : List String
reported_statuses =
    "APPROVED" ∷ "DECLINED" ∷ "REFERRED" ∷ "DOCUMENTS_REQUIRED" ∷ "OFFER_ACCEPTED"
    ∷ "FUNDING_PENDING" ∷ "FUNDED" ∷ "COMPLETED" ∷ []

IsReportedAsItself : String → String → Type 0
IsReportedAsItself id status = (for_application_status id status).status ≡ status

reported_self :
    (id status : String)
    → Has status reported_statuses
    → (for_application_status id status).status ≡ status
unfolding for_application_status IsReportedAsItself
reported_self id status h =
    All-Has (IsReportedAsItself id) reported_statuses status (ground arith) h

reported_error :
    (id status : String)
    → ¬ Has status reported_statuses
    → for_application_status id status ≡ for_error id
unfolding for_application_status
reported_error id status h = ground (
  arith,
  eq_iff status "APPROVED",
  eq_iff status "DECLINED",
  eq_iff status "REFERRED",
  eq_iff status "DOCUMENTS_REQUIRED",
  eq_iff status "OFFER_ACCEPTED",
  eq_iff status "FUNDING_PENDING",
  eq_iff status "FUNDED",
  eq_iff status "COMPLETED",
)

-- Once the workflow has ended, a status of the list is reported as itself, and any other as an
-- error with the advice to contact support.
pub for_application_status_lem :
    (id status : String)
    → (Has status reported_statuses × ((for_application_status id status).status ≡ status))
      ⊎ ((Has status reported_statuses → ⊥) × (for_application_status id status ≡ for_error id))
for_application_status_lem id status = elim (Has-decided status reported_statuses) [
  | inl h ↦ inl (h, reported_self id status h)
  | inr n ↦ inr (n, reported_error id status n)
]

decide_cases :
    (offer : PricedOffer) (pull : CreditSummary)
    → let outcome = (decide offer pull).outcome in
      (outcome ≡ "APPROVED") ⊎ ((outcome ≡ "DECLINED") ⊎ (outcome ≡ "REFERRED"))
unfolding decide
decide_cases offer pull = ground arith

-- Every outcome that `decide` can reach is reported as itself, never as an error.
pub for_application_status-decide :
    (id : String) (offer : PricedOffer) (pull : CreditSummary)
    → (for_application_status id (decide offer pull).outcome).status ≡ (decide offer pull).outcome
for_application_status-decide id offer pull =
    reported_self id (decide offer pull).outcome (elim (decide_cases offer pull) [
      | inl e ↦ inl (sym e)
      | inr (inl e) ↦ inr (inl (sym e))
      | inr (inr e) ↦ inr (inr (inl (sym e)))
    ])

abbrev live_report : String → Result String → Result WorkflowStatus
live_report id (ok live) = ok (for_application_status id live)
live_report id (err e) = err (wrap "reading current application status" e)

module _ {N E : Type 0} (applications : ApplicationClient N) (executions : ExecutionReader E) where
  -- Without a session that application-management-service accepts for this very application, the
  -- request fails, and Step Functions is not asked.
  pub get_status_needs_session :
      (token id : String) (s : State N E)
      → (applications.validate_session token id s.applications).0 ≢ ok true
      → let (answer, after) = get_status applications executions token id s in
        ((e : Error) × (answer ≡ err e)) × (after.executions ≡ s.executions)
  unfolding get_status
  get_status_needs_session token id s n =
      elim (Result-cases (applications.validate_session token id s.applications).0) [
        | inl (true, valid) ↦ absurd (n valid)
        | inl (false, valid) ↦ ((sentinel unauthorized, ground arith), ground arith)
        | inr (e, failed) ↦ ((wrap "validating session" e, ground arith), ground arith)
      ]

  -- For an execution that has succeeded, the answer is the report of the live status alone: the
  -- execution's own outcome plays no part. For one that has failed, timed out or was aborted the
  -- answer is the error report.
  pub get_status_ended :
      (token id arn status decision : String) (s : State N E)
      → let asked = (applications.validate_session token id s.applications) in
        asked.0 ≡ ok true
        → (applications.execution_arn id asked.1).0 ≡ ok arn
        → (executions.outcome arn s.executions).0 ≡ ok (status, decision)
        → status ≢ "RUNNING"
        → (get_status applications executions token id s).0 ≡ (
            if status == "SUCCEEDED"
            then live_report id
                (applications.current_status id (applications.execution_arn id asked.1).1).0
            else ok (for_error id))
  unfolding get_status
  get_status_ended token id arn status decision s valid found read over =
      ground (arith, eq_iff status "RUNNING", eq_iff status "SUCCEEDED")
