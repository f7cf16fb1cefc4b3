-- ===== src/Documents/Submit.antt =====
-- What a submission does to the table and to application-management-service.
use psr_pl.Base.{
  ℕ, String, Bool, true, not, ◌&&◌, Option, none, some, ◌==◌, if◌then◌else◌, ◌≡◌, subst, arith,
  eq_iff, refl, inl, inr, Bool-cases,
}
use psr_pl.Go.{Error, ok, err, Result-cases, wrap}
use psr_pl.Documents.Model.{Record, status_complete}
use psr_pl.Documents.Repository.{Repository, IsRepository}
use psr_pl.Documents.Service.{
  StatusUpdater, State, is_known_document, fresh, submitted, is_complete, submit, loaded,
}
use psr_pl.Documents.Progress.{IsWellFormed, submitted-IsWellFormed, fresh-IsWellFormed}

-- The record as the service reads it: a missing one is fresh.
abbrev pub or_fresh : String → Option Record → Record
or_fresh id none = fresh id
or_fresh id (some r) = r

-- The submission turns an incomplete record into a complete one.
abbrev pub completes : Record → String → ℕ → Bool
completes old id now = not (is_complete old) && is_complete (submitted old id now)

pub submitted_application_id :
    (r : Record) (id : String) (now : ℕ) → (submitted r id now).application_id ≡ r.application_id
unfolding submitted
submitted_application_id r id now = ground arith

pub or_fresh-IsWellFormed :
    (id : String) (o : Option Record)
    → ((x : Record) → o ≡ some x → IsWellFormed x)
    → IsWellFormed (or_fresh id o)
or_fresh-IsWellFormed id none w = fresh-IsWellFormed id
or_fresh-IsWellFormed id (some r) w = w r refl

module _ {D N : Type 0} {repo : Repository D} (application : StatusUpdater N)
    {stored : D → String → Option Record} (law : IsRepository repo stored) where
  pub loaded_lem :
      (id : String) (t : D) (old : Record)
      → loaded id (repo.get id t).0 ≡ ok old
      → (old ≡ or_fresh id (stored t id)) × (old.application_id ≡ id)
  unfolding loaded
  loaded_lem id t old h = elim (Result-cases (repo.get id t).0) [
    | inl (r, got) ↦
        let found = law.get_reads.found id t r got in
        (ground arith, ground (arith, law.keyed t id r))
    | inr (e, failed) ↦ (
      ground (arith, law.get_reads.not_found id t e),
      ground (arith, law.get_reads.not_found id t e),
    )
  ]

  -- After a successful submission the document is one that is known, and the record is stored with
  -- it and returned; no other record has changed. The application was advanced to OFFER_ACCEPTED,
  -- and successfully, if this submission completed the record; otherwise
  -- application-management-service was not called.
  pub submit_document_succeeds :
      (id document : String) (now : ℕ) (s : State D N) (r : Record)
      → (submit repo application id document now s).0 ≡ ok r
      → let after = (submit repo application id document now s).1 in
        let old = or_fresh id (stored s.table id) in
        (is_known_document document ≡ true)
        × (r ≡ submitted old document now)
        × ((j : String) → stored after.table j ≡ (if id == j then some r else stored s.table j))
        × ((if completes old document now
              then application.update_status id "OFFER_ACCEPTED" s.applications
              else (ok tt, s.applications))
            ≡ (ok tt, after.applications))
  unfolding submit
  submit_document_succeeds id document now s r h =
      elim (Result-cases (loaded id (repo.get id s.table).0)) [
        | inl (old, got) ↦
            let (same, own) = loaded_lem id s.table old got in
            rw (← same) (
              ground arith,
              ground arith,
              λ j. ground (
                arith,
                submitted_application_id old document now,
                law.get_reads.keeps id s.table j,
                law.save_writes.writes (submitted old document now) (repo.get id s.table).1 j,
              ),
              ground arith,
            )
        | inr (e, failed) ↦ absurd (ground arith)
      ]

  -- If the submission completes the record and the update of the application then fails, the
  -- submission fails, but the record stays stored as complete.
  pub submit_document_update_fails :
      (id document : String) (now : ℕ) (s : State D N) (old : Record) (e : Error)
      → is_known_document document ≡ true
      → (repo.get id s.table).0 ≡ ok old
      → completes old document now ≡ true
      → (repo.save (submitted old document now) (repo.get id s.table).1).0 ≡ ok tt
      → (application.update_status id "OFFER_ACCEPTED" s.applications).0 ≡ err e
      → let (answer, after) = submit repo application id document now s in
        (answer ≡ err (wrap "advancing application status" e))
        × (stored after.table id ≡ some (submitted old document now))
        × (is_complete (submitted old document now) ≡ true)
  unfolding submit loaded
  submit_document_update_fails id document now s old e known got due saved failed =
      let own = law.keyed s.table id old (law.get_reads.found id s.table old got) in
      (
        ground arith,
        ground (
          arith,
          submitted_application_id old document now,
          eq_iff id id,
          law.save_writes.writes (submitted old document now) (repo.get id s.table).1 id,
        ),
        ground arith,
      )

  -- Once a record is stored as complete, no submission whatever calls application-management-service
  -- for it.
  pub submit_complete_silent :
      (id document : String) (now : ℕ) (s : State D N) (old : Record)
      → stored s.table id ≡ some old
      → old.status ≡ status_complete
      → (submit repo application id document now s).1.applications ≡ s.applications
  unfolding submit
  submit_complete_silent id document now s old held done =
      elim (Result-cases (loaded id (repo.get id s.table).0)) [
        | inl (r, got) ↦
            let (same, own) = loaded_lem id s.table r got in
            ground (arith, eq_iff r.status status_complete)
        | inr (e, failed) ↦ ground arith
      ]

  -- Where every stored record is well formed, every record that is stored after a successful
  -- submission is well formed too.
  pub submit-IsWellFormed :
      (id document : String) (now : ℕ) (s : State D N) (r : Record)
      → ((k : String) (x : Record) → stored s.table k ≡ some x → IsWellFormed x)
      → (submit repo application id document now s).0 ≡ ok r
      → (k : String) (x : Record)
      → stored (submit repo application id document now s).1.table k ≡ some x
      → IsWellFormed x
  submit-IsWellFormed id document now s r w h k x e =
      let (known, same, held, _) = submit_document_succeeds id document now s r h in
      let before = or_fresh-IsWellFormed id (stored s.table id) (w id) in
      let whole : IsWellFormed r = rw same (submitted-IsWellFormed _ document now before known) in
      elim (Bool-cases (id == k)) [
        | inl here ↦ subst IsWellFormed (ground (arith, held k)) whole
        | inr other ↦ w k x (ground (arith, held k))
      ]
