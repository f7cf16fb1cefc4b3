-- ===== src/Application/Login.antt =====
-- Who gets a session, and what a session opens.
use Prim.Native.String.{◌++◌ as concat}
use psr_pl.Base.{
  ℕ, ◌+◌, ◌*◌, ◌/◌, ◌^◌, ◌<◌, String, true, Option, some, ◌≡◌, ◌⊎◌, inl, inr, arith, eq_iff,
  eq_refl,
}
use psr_pl.Go.{
  Error, is, Result, ok, err, Result-cases, sentinel, login_failed, application_not_found,
}
use psr_pl.Application.Model.{Application}
use psr_pl.Application.Suffix.{EndsIn, has_suffix_iff, has_suffix-empty}
use psr_pl.Application.Repository.{Repository, IsRepository}
use psr_pl.Application.Sessions.{SessionStore, SessionRecord, session_item_id, unix}
use psr_pl.Application.Workflow.{WorkflowStarter}
use psr_pl.Application.OfferLog.{OfferLogAdapter}
use psr_pl.Application.Issued.{issued, IsSessionStore}
use psr_pl.Application.Service.{State, session_ttl, login, authenticate}

-- The identity that a login asks for.
abbrev pub Identifies : String → String → Application → Type 0
Identifies last4_ssn date_of_birth app =
    EndsIn app.applicant.ssn last4_ssn × (app.applicant.date_of_birth ≡ date_of_birth)

module _ {D L W : Type 0} (repo : Repository D) (offers : OfferLogAdapter L)
    (sessions : SessionStore D) (workflow : WorkflowStarter W) where
  -- A login for an application that there is not, or with an SSN ending or a date of birth that
  -- differs, gets the one error value for a failed login, whichever of them it was, and issues no
  -- session: after the read of the table nothing is called.
  pub login_refused :
      (random : Result String) (now : ℕ) (id last4_ssn date_of_birth : String) (s : State D L W)
      → ((e : Error) × ((repo.get id s.table).0 ≡ err e) × (is e application_not_found ≡ true))
        ⊎ ((app : Application) × ((repo.get id s.table).0 ≡ ok app)
            × (¬ Identifies last4_ssn date_of_birth app))
      → login repo offers sessions workflow random now id last4_ssn date_of_birth s
        ≡ (err (sentinel login_failed), record s { table = (repo.get id s.table).1 })
  unfolding login
  login_refused random now id last4_ssn date_of_birth s (inl (e, got, missing)) = ground arith
  login_refused random now id last4_ssn date_of_birth s (inr (app, got, differs)) = ground (
    arith,
    has_suffix_iff app.applicant.ssn last4_ssn,
    eq_iff app.applicant.date_of_birth date_of_birth,
  )

  -- The ending of the SSN is not asked for at all where the request leaves it empty: the date of
  -- birth alone gets a session.
  pub login_without_ssn :
      (random : Result String) (now : ℕ) (id token : String) (s : State D L W) (app : Application)
      → (repo.get id s.table).0 ≡ ok app
      → (sessions.create random now app.id session_ttl (repo.get id s.table).1).0 ≡ ok token
      → (login repo offers sessions workflow random now id "" app.applicant.date_of_birth s).0
        ≡ ok token
  unfolding login
  login_without_ssn random now id token s app got made =
      ground (arith, has_suffix-empty app.applicant.ssn, eq_refl app.applicant.date_of_birth)

module _ {D L W : Type 0} {repo : Repository D} {sessions : SessionStore D}
    (offers : OfferLogAdapter L) (workflow : WorkflowStarter W)
    {stored : D → String → Option Application} {kept : D → String → Option SessionRecord}
    (law : IsRepository repo stored) (store : IsSessionStore sessions kept) where
  -- A token is issued only to who names an application that is stored, the ending of its SSN and its
  -- date of birth, and the session is for this application and ends thirty minutes later, at the full second.
  pub login_succeeds :
      (random : Result String) (now : ℕ) (id last4_ssn date_of_birth token : String)
      (s : State D L W)
      → (login repo offers sessions workflow random now id last4_ssn date_of_birth s).0 ≡ ok token
      → let after =
          (login repo offers sessions workflow random now id last4_ssn date_of_birth s).1 in
        (app : Application) × (stored s.table id ≡ some app)
        × Identifies last4_ssn date_of_birth app
        × (issued kept after.table token
            ≡ some (record {
              id = concat "SESSION#" token;
              application_id = id;
              expires_at = (now + 1800 * 10 ^ 9) / 10 ^ 9;
            }))
  unfolding login
  login_succeeds random now id last4_ssn date_of_birth token s h =
      elim (Result-cases (repo.get id s.table).0) [
        | inl (app, got) ↦
            let there = law.get_reads.found id s.table app got in
            let same = law.keyed s.table id app there in
            let read = (repo.get id s.table).1 in
            let made : (sessions.create random now app.id session_ttl read).0 ≡ ok token =
              ground arith in
            let (_, written) = store.creates random now app.id session_ttl read token made in
            (
              app,
              there,
              (
                (has_suffix_iff app.applicant.ssn last4_ssn).0 (ground arith),
                ground (arith, eq_iff app.applicant.date_of_birth date_of_birth),
              ),
              ground (arith, written (session_item_id token), eq_refl (session_item_id token)),
            )
        | inr (e, failed) ↦ absurd (ground arith)
      ]

  -- A token opens only the application that it was issued for, and only before it expires.
  pub authenticate_succeeds :
      (now : ℕ) (token id : String) (s : State D L W)
      → (authenticate repo offers sessions workflow now token id s).0 ≡ ok tt
      → (r : SessionRecord) × (issued kept s.table token ≡ some r)
        × (r.application_id ≡ id)
        × (unix now < r.expires_at)
  unfolding authenticate
  authenticate_succeeds now token id s h =
      elim (Result-cases (sessions.validate now token s.table).0) [
        | inl (owner, valid) ↦
            store.validates now token id s.table (ground (arith, eq_iff owner id))
        | inr (e, failed) ↦ absurd (ground arith)
      ]

  -- From login to access: the token that a login for `id` returned authenticates for no other
  -- application, and not from thirty minutes later on, at the full second.
  pub login-authenticate :
      (random : Result String) (now later : ℕ) (id last4_ssn date_of_birth token other : String)
      (s : State D L W)
      → (login repo offers sessions workflow random now id last4_ssn date_of_birth s).0 ≡ ok token
      → (authenticate repo offers sessions workflow later token other
          (login repo offers sessions workflow random now id last4_ssn date_of_birth s).1).0
        ≡ ok tt
      → (other ≡ id) × (later / 10 ^ 9 < (now + 1800 * 10 ^ 9) / 10 ^ 9)
  login-authenticate random now later id last4_ssn date_of_birth token other s h opened =
      let after = (login repo offers sessions workflow random now id last4_ssn date_of_birth s).1 in
      let (app, _, _, made) = login_succeeds random now id last4_ssn date_of_birth token s h in
      let (r, there, owner, alive) = authenticate_succeeds later token other after opened in
      ground arith
