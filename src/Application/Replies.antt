-- ===== src/Application/Replies.antt =====
-- What the handlers answer, and to whom.
use psr_pl.Base.{ℕ, ◌<◌, String, Option, some, ◌==◌, ◌≡◌, ◌≢◌, inl, inr, arith, eq_iff, Bool-cases}
use psr_pl.Go.{Result, ok, Result-cases, sentinel, login_failed}
use psr_pl.Http.{write_json, write_error, bearer_token}
use psr_pl.Application.Model.{Application}
use psr_pl.Application.Validator.{IsComplete}
use psr_pl.Application.Repository.{Repository, IsRepository}
use psr_pl.Application.Sessions.{SessionStore, SessionRecord, unix}
use psr_pl.Application.Workflow.{WorkflowStarter}
use psr_pl.Application.OfferLog.{OfferLogAdapter}
use psr_pl.Application.Service
use psr_pl.Application.Service.{State, Ambient}
use psr_pl.Application.Submission.{submit_incomplete}
use psr_pl.Application.Issued.{issued, IsSessionStore}
use psr_pl.Application.Login.{Identifies, login_refused, authenticate_succeeds}
use psr_pl.Application.Lifecycle.{get_finds, get_keeps}
use psr_pl.Application.Handler
use psr_pl.Application.Handler.{Floats, SubmitBody, LoginBody, applicant_of}

module _ {D L W : Type 0} (repo : Repository D) (offers : OfferLogAdapter L)
    (sessions : SessionStore D) (workflow : WorkflowStarter W) where
  -- A submission that lacks a required field is answered with 422, on every channel, and changes
  -- nothing.
  pub submit_unprocessable :
      (f : Floats) (now : Ambient) (channel : String) (body : SubmitBody) (s : State D L W)
      → ¬ IsComplete (applicant_of f body)
      → let (reply, after) =
          Handler.submit repo offers sessions workflow f now channel (ok body) s in
        (reply.status ≡ 422) × (after ≡ s)
  unfolding Handler.submit
  submit_unprocessable f now channel body s n =
      let ((e, refused), same) =
        submit_incomplete repo offers sessions workflow now (Handler.submit_request f channel body)
          s n in
      ground arith

  -- A login with a wrong ending of the SSN or a wrong date of birth is answered with 401, and nothing
  -- but a read of the table happens.
  pub login_unauthorized :
      (random : Result String) (now : ℕ) (body : LoginBody) (s : State D L W) (app : Application)
      → (repo.get body.application_id s.table).0 ≡ ok app
      → ¬ Identifies body.last4_ssn body.date_of_birth app
      → Handler.login repo offers sessions workflow random now (ok body) s ≡ (
        write_error 401 (sentinel login_failed),
        record s { table = (repo.get body.application_id s.table).1 },
      )
  unfolding Handler.login
  login_unauthorized random now body s app got differs =
      let refused =
        login_refused repo offers sessions workflow random now body.application_id body.last4_ssn
          body.date_of_birth s (inr (app, got, differs)) in
      ground arith

module _ {D L W : Type 0} {repo : Repository D} {sessions : SessionStore D}
    (offers : OfferLogAdapter L) (workflow : WorkflowStarter W)
    {stored : D → String → Option Application} {kept : D → String → Option SessionRecord}
    (law : IsRepository repo stored) (store : IsSessionStore sessions kept) where
  -- The status endpoint shows an application only to the bearer of a token that was issued for this
  -- very application and has not expired, and what it shows is the stored application.
  pub status_discloses :
      (now : ℕ) (auth id : String) (s : State D L W) (app : Application)
      → (Handler.status repo offers sessions workflow now auth id s).0 ≡ write_json 200 app
      → let after = (Handler.status repo offers sessions workflow now auth id s).1 in
        (bearer_token auth ≢ "")
        × (stored after.table id ≡ some app)
        × (r : SessionRecord) × (issued kept s.table (bearer_token auth) ≡ some r)
        × (r.application_id ≡ id)
        × (unix now < r.expires_at)
  unfolding Handler.status
  status_discloses now auth id s app shown = elim (Bool-cases (bearer_token auth == "")) [
    | inl missing ↦ absurd (ground arith)
    | inr present ↦
        elim (Result-cases
          (Service.authenticate repo offers sessions workflow now (bearer_token auth) id s).0) [
            | inl (u, valid) ↦
                let between =
                  (Service.authenticate repo offers sessions workflow now (bearer_token auth) id
                    s).1 in
                let session =
                  authenticate_succeeds offers workflow law store now (bearer_token auth) id s
                    valid in
                let got : (Service.get repo offers sessions workflow id between).0 ≡ ok app =
                  ground arith in
                (
                  ground (arith, eq_iff (bearer_token auth) ""),
                  ground (
                    arith,
                    get_finds offers sessions workflow law id between app got,
                    get_keeps offers sessions workflow law id id between,
                  ),
                  session.0,
                  session.1,
                  session.2,
                  session.3,
                )
            | inr (e, failed) ↦ absurd (ground arith)
          ]
  ]
