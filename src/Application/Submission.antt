-- ===== src/Application/Submission.antt =====
-- What a submission does to the table, to OfferLog and to the workflow.
use psr_pl.Base.{
  String, true, Option, none, some, ◌==◌, if◌then◌else◌, ◌≡◌, ◌≢◌, inl, inr, arith, eq_iff,
}
use psr_pl.Go.{
  Error, is, detail, ok, err, Result-cases, sentinel, incomplete_application, offer_unavailable,
}
use psr_pl.Application.Model.{
  Offer, Applicant, Application, entry_path_invitation, entry_path_direct,
}
use psr_pl.Application.Validator.{validate, IsComplete, validate-IsComplete}
use psr_pl.Application.Repository.{Repository, IsRepository}
use psr_pl.Application.Sessions.{SessionStore}
use psr_pl.Application.Workflow.{WorkflowStarter}
use psr_pl.Application.OfferLog.{OfferLogAdapter}
use psr_pl.Application.Service.{
  State, SubmitRequest, Ambient, prefilled, new_application, workflow_input, revalidate, persist,
  submit,
}

module _ {D L W : Type 0} (repo : Repository D) (offers : OfferLogAdapter L)
    (sessions : SessionStore D) (workflow : WorkflowStarter W) where
  -- A submission that lacks a required field is refused with the error value for it, and changes
  -- nothing: not the table, not OfferLog, not the workflow.
  pub submit_incomplete :
      (now : Ambient) (req : SubmitRequest) (s : State D L W)
      → ¬ IsComplete req.applicant
      → let (answer, after) = submit repo offers sessions workflow now req s in
        ((e : Error) × (answer ≡ err (detail (sentinel incomplete_application) e))) × (after ≡ s)
  unfolding submit
  submit_incomplete now req s n = elim (Result-cases (validate req.applicant)) [
    | inl (u, valid) ↦ absurd (n ((validate-IsComplete req.applicant).0 valid))
    | inr (e, failed) ↦ ((e, ground arith), ground arith)
  ]

  -- An invitation whose offer OfferLog no longer grants is submitted as a direct application: after
  -- the call of OfferLog, everything is as if the same request had come by the direct path.
  pub submit_degrades :
      (now : Ambient) (req : SubmitRequest) (s : State D L W) (e : Error)
      → req.entry_path ≡ entry_path_invitation
      → req.intake_id ≢ ""
      → IsComplete req.applicant
      → (offers.validate_offer req.intake_id s.offers).0 ≡ err e
      → is e offer_unavailable ≡ true
      → submit repo offers sessions workflow now req s
        ≡ submit repo offers sessions workflow now
            (record req { entry_path = entry_path_direct })
            (record s { offers = (offers.validate_offer req.intake_id s.offers).1 })
  unfolding submit
  submit_degrades now req s e path intake full answer unavailable = ground (
    arith,
    validate-IsComplete req.applicant,
    eq_iff req.entry_path entry_path_invitation,
    eq_iff req.intake_id "",
    eq_iff entry_path_direct entry_path_invitation,
  )

module _ {D L W : Type 0} {repo : Repository D} (offers : OfferLogAdapter L)
    (sessions : SessionStore D) (workflow : WorkflowStarter W)
    {stored : D → String → Option Application} (law : IsRepository repo stored) where
  prefilled_from :
      (now : Ambient) (req : SubmitRequest) (s : State D L W) (offer : Offer) (prefill : Applicant)
      (app : Application)
      → req.entry_path ≡ entry_path_invitation
      → req.intake_id ≢ ""
      → (offers.validate_offer req.intake_id s.offers).0 ≡ ok (offer, prefill)
      → (submit repo offers sessions workflow now req s).0 ≡ ok app
      → (app.offer ≡ some offer)
        × (app.entry_path ≡ entry_path_invitation)
        × (app.applicant ≡ (prefilled req prefill).applicant)
  unfolding submit
  prefilled_from now req s offer prefill app path intake granted h =
      ground (arith, eq_iff req.entry_path entry_path_invitation, eq_iff req.intake_id "")

  persist_writes :
      (now : Ambient) (req : SubmitRequest) (snapshot : Option Offer) (s : State D L W)
      (app : Application)
      → (persist repo offers sessions workflow now (req, snapshot) s).0 ≡ ok app
      → let after = (persist repo offers sessions workflow now (req, snapshot) s).1 in
        (stored s.table app.id ≡ none)
        × ((j : String)
            → stored after.table j ≡ (if app.id == j then some app else stored s.table j))
  persist_writes now req snapshot s app h =
      let new = new_application now req snapshot in
      let made = repo.create new s.table in
      let c = law.create_writes in
      let u = law.update_writes in
      (
        ground (arith, c.checks new s.table),
        λ j. ground (arith, c.writes new s.table j, u.writes app made.1 j),
      )

  -- The workflow is started with what is persisted, and its execution is recorded.
  persist_starts :
      (now : Ambient) (req : SubmitRequest) (snapshot : Option Offer) (s : State D L W)
      (app : Application)
      → (persist repo offers sessions workflow now (req, snapshot) s).0 ≡ ok app
      → let after = (persist repo offers sessions workflow now (req, snapshot) s).1 in
        (app ≡ record (new_application now req snapshot) { execution_arn = app.execution_arn })
        × (workflow.start (workflow_input now.request_id app) s.workflow
            ≡ (ok app.execution_arn, after.workflow))
  persist_starts now req snapshot s app h = ground arith

  revalidate_keeps :
      (req : SubmitRequest) (s : State D L W)
      → let after = (revalidate repo offers sessions workflow req s).1 in
        (after.table ≡ s.table) × (after.workflow ≡ s.workflow)
  revalidate_keeps req s = ground arith

  -- After a successful submission: the applicant's request had every field that `Validate` asks for, there
  -- was no application of the new id before, the returned application is stored, SUBMITTED, with the
  -- time of the submission, no other application has changed, and the workflow was started with the
  -- data of exactly this application, whose record names the execution.
  pub submit_succeeds :
      (now : Ambient) (req : SubmitRequest) (s : State D L W) (app : Application)
      → (submit repo offers sessions workflow now req s).0 ≡ ok app
      → let after = (submit repo offers sessions workflow now req s).1 in
        IsComplete req.applicant
        × (app.id ≡ now.uuid)
        × (app.status ≡ "SUBMITTED")
        × (app.submitted_at ≡ now.now)
        × (stored s.table app.id ≡ none)
        × ((j : String)
            → stored after.table j ≡ (if app.id == j then some app else stored s.table j))
        × (workflow.start
              (record {
                application_id = app.id;
                first_name = (app.applicant).first_name;
                last_name = (app.applicant).last_name;
                date_of_birth = (app.applicant).date_of_birth;
                ssn = (app.applicant).ssn;
                address = (app.applicant).address;
                requested_amount_cents = (app.applicant).requested_amount_cents;
                requested_term_months = (app.applicant).requested_term_months;
                annual_income_cents = (app.applicant).annual_income_cents;
                monthly_obligations_cents = (app.applicant).monthly_obligations_cents;
                request_id = now.request_id;
              })
              s.workflow
            ≡ (ok app.execution_arn, after.workflow))
  unfolding submit
  submit_succeeds now req s app h =
      elim (Result-cases (revalidate repo offers sessions workflow req s).0) [
        | inl ((kept, snapshot), validated) ↦
            let between = (revalidate repo offers sessions workflow req s).1 in
            let (same_table, same_workflow) = revalidate_keeps req s in
            let persisted : (persist repo offers sessions workflow now (kept, snapshot) between).0
                ≡ ok app =
              ground arith in
            let (fresh, written) = persist_writes now kept snapshot between app persisted in
            let (made, started) = persist_starts now kept snapshot between app persisted in
            (
              (validate-IsComplete req.applicant).0 (ground arith),
              ground arith,
              ground arith,
              ground arith,
              ground arith,
              λ j. ground (arith, written j),
              ground arith,
            )
        | inr (e, failed) ↦ absurd (ground arith)
      ]

  -- If OfferLog grants the offer, the application that is stored carries the name and the address
  -- that OfferLog gives, whatever the request says, and the snapshot of the offer; the remaining
  -- fields of the applicant are the request's.
  pub submit_prefills :
      (now : Ambient) (req : SubmitRequest) (s : State D L W) (offer : Offer) (prefill : Applicant)
      (app : Application)
      → req.entry_path ≡ "INVITATION"
      → req.intake_id ≢ ""
      → (offers.validate_offer req.intake_id s.offers).0 ≡ ok (offer, prefill)
      → (submit repo offers sessions workflow now req s).0 ≡ ok app
      → let a = req.applicant in
        (stored (submit repo offers sessions workflow now req s).1.table app.id ≡ some app)
        × (app.offer ≡ some offer)
        × (app.entry_path ≡ "INVITATION")
        × (app.applicant ≡ record {
          first_name = prefill.first_name;
          last_name = prefill.last_name;
          address = prefill.address;
          phone = a.phone;
          email = a.email;
          employment = a.employment;
          annual_income_cents = a.annual_income_cents;
          monthly_obligations_cents = a.monthly_obligations_cents;
          ssn = a.ssn;
          ssn_verification_token = a.ssn_verification_token;
          date_of_birth = a.date_of_birth;
          citizenship_status = a.citizenship_status;
          requested_amount_cents = a.requested_amount_cents;
          requested_term_months = a.requested_term_months;
          loan_purpose = a.loan_purpose;
        })
  submit_prefills now req s offer prefill app path intake granted h =
      let (full, id, status, time, fresh, written, starts) = submit_succeeds now req s app h in
      let (carried, entry, applicant) =
        prefilled_from now req s offer prefill app path intake granted h in
      (ground (arith, written app.id, eq_iff app.id app.id), carried, entry, applicant)
