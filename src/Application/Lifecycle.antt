-- ===== src/Application/Lifecycle.antt =====
-- An application after its submission: what is read back, and how its status is advanced.
use psr_pl.Base.{ℕ, String, Option, none, some, ◌==◌, if◌then◌else◌, ◌≡◌, inl, inr, arith, eq_refl}
use psr_pl.Go.{Error, wrap, ok, err, Result-cases, wrap_result-ok}
use psr_pl.Application.Model.{Application}
use psr_pl.Application.Repository.{Repository, IsRepository}
use psr_pl.Application.Sessions.{SessionStore}
use psr_pl.Application.Workflow.{WorkflowStarter}
use psr_pl.Application.OfferLog.{OfferLogAdapter}
use psr_pl.Application.Service.{
  State, SubmitRequest, Ambient, submit, get, execution_arn, update_status,
}
use psr_pl.Application.Submission.{submit_succeeds}

module _ {D L W : Type 0} {repo : Repository D} (offers : OfferLogAdapter L)
    (sessions : SessionStore D) (workflow : WorkflowStarter W)
    {stored : D → String → Option Application} (law : IsRepository repo stored) where
  -- A successful update of the status returns the stored application with the given status and
  -- time and nothing else changed, stores it, and changes no other application, nor OfferLog, nor the
  -- workflow.
  pub update_status_succeeds :
      (now : ℕ) (id status : String) (s : State D L W) (app : Application)
      → (update_status repo offers sessions workflow now id status s).0 ≡ ok app
      → let after = (update_status repo offers sessions workflow now id status s).1 in
        (old : Application) × (stored s.table id ≡ some old)
        × (app ≡ record old { status = status; last_action_at = now })
        × ((j : String) → stored after.table j ≡ (if id == j then some app else stored s.table j))
        × (after.offers ≡ s.offers)
        × (after.workflow ≡ s.workflow)
  unfolding update_status
  update_status_succeeds now id status s app h = elim (Result-cases (repo.get id s.table).0) [
    | inl (old, got) ↦
        let there = law.get_reads.found id s.table old got in
        let same = law.keyed s.table id old there in
        let read = (repo.get id s.table).1 in
        (
          old,
          there,
          ground arith,
          λ j.
              ground (arith, law.update_writes.writes app read j, law.get_reads.keeps id s.table j),
          ground arith,
          ground arith,
        )
    | inr (e, failed) ↦ absurd (ground arith)
  ]

  pub get_finds :
      (id : String) (s : State D L W) (app : Application)
      → (get repo offers sessions workflow id s).0 ≡ ok app
      → stored s.table id ≡ some app
  unfolding get
  get_finds id s app h = law.get_reads.found id s.table app (wrap_result-ok _ _ h)

  pub get_keeps :
      (id j : String) (s : State D L W)
      → stored (get repo offers sessions workflow id s).1.table j ≡ stored s.table j
  unfolding get
  get_keeps id j s = law.get_reads.keeps id s.table j

  pub execution_arn_finds :
      (id : String) (s : State D L W) (arn : String)
      → (execution_arn repo offers sessions workflow id s).0 ≡ ok arn
      → (app : Application) × (stored s.table id ≡ some app) × (app.execution_arn ≡ arn)
  unfolding execution_arn
  execution_arn_finds id s arn h = elim (Result-cases (repo.get id s.table).0) [
    | inl (app, got) ↦ (app, law.get_reads.found id s.table app got, ground arith)
    | inr (e, failed) ↦ absurd (ground arith)
  ]

  -- After a successful submission, whoever asks for the application or for its execution gets what
  -- the submission returned, or an error.
  pub submit-get :
      (now : Ambient) (req : SubmitRequest) (s : State D L W) (app read : Application)
      (arn : String)
      → (submit repo offers sessions workflow now req s).0 ≡ ok app
      → (get repo offers sessions workflow app.id
          (submit repo offers sessions workflow now req s).1).0
        ≡ ok read
      → (execution_arn repo offers sessions workflow app.id
          (submit repo offers sessions workflow now req s).1).0
        ≡ ok arn
      → (read ≡ app) × (arn ≡ app.execution_arn)
  submit-get now req s app read arn h got linked =
      let after = (submit repo offers sessions workflow now req s).1 in
      let (_, _, _, _, _, written, _) =
        submit_succeeds offers sessions workflow law now req s app h in
      let found = get_finds app.id after read got in
      let (named, there, same) = execution_arn_finds app.id after arn linked in
      ground (arith, written app.id, eq_refl app.id)

  -- An update for an application that the table does not hold fails, and writes nothing.
  pub update_status_missing :
      (now : ℕ) (id status : String) (s : State D L W)
      → stored s.table id ≡ none
      → let (answer, after) = update_status repo offers sessions workflow now id status s in
        ((e : Error) × (answer ≡ err e)) × ((j : String) → stored after.table j ≡ stored s.table j)
  unfolding update_status
  update_status_missing now id status s missing = elim (Result-cases (repo.get id s.table).0) [
    | inl (old, got) ↦ absurd (ground (arith, law.get_reads.found id s.table old got))
    | inr (e, failed) ↦ (
      (wrap "getting application" e, ground arith),
      λ j. ground (arith, law.get_reads.keeps id s.table j),
    )
  ]
