-- ===== src/Application/Service.antt =====
-- application-management-service/internal/application/service.go. The clock, the new UUID, the random
-- token and the context's request id are arguments. The repository and the sessions keep their items
-- in one table; OfferLog and the workflow are systems with a state of their own.
use psr_pl.Base.{ℕ, ◌*◌, String, not, ◌||◌, ◌&&◌, Option, none, some, ◌==◌, if◌then◌else◌}
use psr_pl.Go.{
  is, wrap, detail, Result, ok, err, Exec, pure, raise, lift, wrapping, attempt, ◌>>=◌, ◌>>◌,
  sentinel, incomplete_application, login_failed, session_invalid, offer_unavailable,
  application_not_found,
}
use psr_pl.Application.Model.{
  Offer, Applicant, Application, entry_path_invitation, entry_path_direct, status_submitted,
}
use psr_pl.Application.Validator.{validate}
use psr_pl.Application.Suffix.{has_suffix}
use psr_pl.Application.Repository.{Repository}
use psr_pl.Application.Sessions.{SessionStore, minute}
use psr_pl.Application.Workflow.{WorkflowInput, WorkflowStarter}
use psr_pl.Application.OfferLog.{OfferLogAdapter}

pub record State (D L W : Type 0) : Type 0 where
  pub table : D
  pub offers : L
  pub workflow : W

module _ {D L W A : Type 0} where
  abbrev pub on_table : Exec D A → Exec (State D L W) A
  on_table m s = let (r, t) = m s.table in (r, record s { table = t })

  abbrev pub on_offers : Exec L A → Exec (State D L W) A
  on_offers m s = let (r, t) = m s.offers in (r, record s { offers = t })

  abbrev pub on_workflow : Exec W A → Exec (State D L W) A
  on_workflow m s = let (r, t) = m s.workflow in (r, record s { workflow = t })

pub record SubmitRequest : Type 0 where
  pub entry_path : String
  pub intake_id : String
  pub partner_id : String
  pub applicant : Applicant

-- What `ResolveInvitation` returns besides an error: the offer and its prefill, or `degraded`.
pub data Resolution : Type 0 where
  resolved : Offer → Applicant → Resolution
  degraded : Resolution

-- What comes from outside of the request: the clock, the UUID, and the context's request id.
pub record Ambient : Type 0 where
  pub now : ℕ
  pub uuid : String
  pub request_id : String

abbrev pub session_ttl : ℕ
session_ttl = 30 * minute

abbrev pub prefilled : SubmitRequest → Applicant → SubmitRequest
prefilled req prefill =
    let a = req.applicant in
    record req {
      applicant = record a {
        first_name = prefill.first_name;
        last_name = prefill.last_name;
        address = prefill.address;
      };
    }

abbrev pub new_application : Ambient → SubmitRequest → Option Offer → Application
new_application now req snapshot = record {
  id = now.uuid;
  entry_path = req.entry_path;
  partner_id = req.partner_id;
  applicant = req.applicant;
  offer = snapshot;
  status = status_submitted;
  execution_arn = "";
  submitted_at = now.now;
  last_action_at = now.now;
}

abbrev pub workflow_input : String → Application → WorkflowInput
workflow_input request_id app =
    let a = app.applicant in
    record {
      application_id = app.id;
      first_name = a.first_name;
      last_name = a.last_name;
      date_of_birth = a.date_of_birth;
      ssn = a.ssn;
      address = a.address;
      requested_amount_cents = a.requested_amount_cents;
      requested_term_months = a.requested_term_months;
      annual_income_cents = a.annual_income_cents;
      monthly_obligations_cents = a.monthly_obligations_cents;
      request_id = request_id;
    }

module _ {D L W : Type 0} (repo : Repository D) (offers : OfferLogAdapter L)
    (sessions : SessionStore D) (workflow : WorkflowStarter W) where
  abbrev resolution : Result (Offer × Applicant) → Exec (State D L W) Resolution
  resolution (ok (offer, prefill)) = pure (resolved offer prefill)
  resolution (err e) =
      if is e offer_unavailable then pure degraded else raise (wrap "resolving invitation" e)

  unfoldable pub resolve_invitation : String → Exec (State D L W) Resolution
  resolve_invitation token = attempt (on_offers (offers.validate_offer token)) >>= resolution

  -- The request as it is persisted, and the offer's snapshot.
  abbrev revalidated :
      SubmitRequest → Result (Offer × Applicant) → Exec (State D L W) (SubmitRequest × Option Offer)
  revalidated req (ok (offer, prefill)) = pure (prefilled req prefill, some offer)
  revalidated req (err e) =
      if is e offer_unavailable
      then pure (record req { entry_path = entry_path_direct }, none)
      else raise (wrap "re-validating offer at submission" e)

  abbrev pub revalidate : SubmitRequest → Exec (State D L W) (SubmitRequest × Option Offer)
  revalidate req =
      if req.entry_path == entry_path_invitation && not (req.intake_id == "")
      then attempt (on_offers (offers.validate_offer req.intake_id)) >>= revalidated req
      else pure (req, none)

  abbrev mark_snapshot : Option Offer → Exec (State D L W) (Unit {0})
  mark_snapshot none = pure tt
  mark_snapshot (some offer) =
      wrapping "marking offer used" (on_offers (offers.mark_used offer.intake_id))

  abbrev pub persist : Ambient → SubmitRequest × Option Offer → Exec (State D L W) Application
  persist now (req, snapshot) = do
    let app = new_application now req snapshot
    wrapping "persisting application" (on_table (repo.create app))
    arn ←
        wrapping "starting pricing workflow"
          (on_workflow (workflow.start (workflow_input now.request_id app)))
    let app' = record app { execution_arn = arn }
    wrapping "recording workflow execution" (on_table (repo.update app'))
    mark_snapshot snapshot
    pure app'

  abbrev pub check_complete : Applicant → Result (Unit {0})
  check_complete a = elim (validate a) [
    | ok u ↦ ok u
    | err e ↦ err (detail (sentinel incomplete_application) e)
  ]

  unfoldable pub submit : Ambient → SubmitRequest → Exec (State D L W) Application
  submit now req = do lift (check_complete req.applicant); r ← revalidate req; persist now r

  unfoldable pub get : String → Exec (State D L W) Application
  get id = wrapping "getting application" (on_table (repo.get id))

  unfoldable pub execution_arn : String → Exec (State D L W) String
  execution_arn id = do
    app ← wrapping "getting application" (on_table (repo.get id))
    pure app.execution_arn

  abbrev pub advanced : Application → String → ℕ → Application
  advanced app status now = record app { status = status; last_action_at = now }

  unfoldable pub update_status : ℕ → String → String → Exec (State D L W) Application
  update_status now id status = do
    app ← wrapping "getting application" (on_table (repo.get id))
    wrapping "updating application" (on_table (repo.update (advanced app status now)))
    pure (advanced app status now)

  abbrev check_identity :
      Result String → ℕ → String → String → Result Application → Exec (State D L W) String
  check_identity random now last4_ssn date_of_birth (err e) =
      if is e application_not_found
      then raise (sentinel login_failed)
      else raise (wrap "getting application" e)
  check_identity random now last4_ssn date_of_birth (ok app) =
      let a = app.applicant in
      if not (has_suffix a.ssn last4_ssn) || not (a.date_of_birth == date_of_birth)
      then raise (sentinel login_failed)
      else wrapping "creating session" (on_table (sessions.create random now app.id session_ttl))

  unfoldable pub login : Result String → ℕ → String → String → String → Exec (State D L W) String
  login random now id last4_ssn date_of_birth =
      attempt (on_table (repo.get id)) >>= check_identity random now last4_ssn date_of_birth

  abbrev check_owner : String → Result String → Exec (State D L W) (Unit {0})
  check_owner id (err e) =
      if is e session_invalid
      then raise (sentinel session_invalid)
      else raise (wrap "validating session" e)
  check_owner id (ok owner) =
      if not (owner == id) then raise (sentinel session_invalid) else pure tt

  unfoldable pub authenticate : ℕ → String → String → Exec (State D L W) (Unit {0})
  authenticate now token id = attempt (on_table (sessions.validate now token)) >>= check_owner id
