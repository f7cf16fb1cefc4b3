-- ===== src/Documents/Stranded.antt =====
-- What becomes of an application whose update failed: later submissions to document-service.
use psr_pl.Base.{
  ℕ, String, true, Option, some, List, [], ◌∷◌, ◌≡◌, ◌⊎◌, inl, inr, arith, eq_iff, ◌==◌,
  if◌then◌else◌,
}
use psr_pl.Go.{Error, ok, err, Result-cases, wrap}
use psr_pl.Documents.Model.{Record, status_complete}
use psr_pl.Documents.Repository.{Repository, IsRepository}
use psr_pl.Documents.Service.{StatusUpdater, State, is_known_document, submitted, submit, loaded}
use psr_pl.Documents.Submit.{
  or_fresh, completes, submitted_application_id, loaded_lem, submit_document_update_fails,
  submit_complete_silent,
}
use psr_pl.Documents.Abstract.{Submission}

-- A save that fails has been carried out or not: it touches no other record.
abbrev pub FailsWhole : {D : Type 0} → Repository D → (D → String → Option Record) → Type 0
FailsWhole {D} repo stored =
    (r : Record) (t : D) (e : Error) (j : String)
    → (repo.save r t).0 ≡ err e
    → (stored (repo.save r t).1 j ≡ stored t j)
      ⊎ (stored (repo.save r t).1 j ≡ (if r.application_id == j then some r else stored t j))

module _ {D N : Type 0} {repo : Repository D} (application : StatusUpdater N)
    {stored : D → String → Option Record} (law : IsRepository repo stored)
    (fails : FailsWhole repo stored) where
  -- The state after submissions, whichever of them succeed.
  unfoldable pub attempts : List Submission → State D N → State D N
  attempts [] s = s
  attempts (x ∷ xs) s =
      attempts xs (submit repo application x.application_id x.document_id x.now s).1

  -- A submission leaves a record, or writes its own.
  submit_table :
      (id document : String) (now : ℕ) (s : State D N) (j : String)
      → let after = (submit repo application id document now s).1 in
        (stored after.table j ≡ stored s.table j)
        ⊎ ((id ≡ j)
            × (stored after.table j
                ≡ some (submitted (or_fresh id (stored s.table id)) document now)))
  unfolding submit
  submit_table id document now s j =
      let read = (repo.get id s.table).1 in
      let keeps = law.get_reads.keeps id s.table j in
      elim (Result-cases (loaded id (repo.get id s.table).0)) [
        | inl (old, got) ↦
            let (same, own) = loaded_lem application law id s.table old got in
            let new = submitted old document now in
            let named = submitted_application_id old document now in
            elim (Result-cases (repo.save new read).0) [
              | inl (u, saved) ↦
                  ground (arith, keeps, named, eq_iff id j, law.save_writes.writes new read j)
              | inr (e, failed) ↦
                  ground (arith, keeps, named, eq_iff id j, fails new read e j failed)
            ]
        | inr (e, failed) ↦ inl (ground arith)
      ]

  -- The record of the application says that it is complete.
  abbrev IsDone : String → D → Type 0
  IsDone id t = (r : Record) × (stored t id ≡ some r) × (r.status ≡ status_complete)

  submitted_complete :
      (r : Record) (document : String) (now : ℕ)
      → r.status ≡ status_complete
      → (submitted r document now).status ≡ status_complete
  unfolding submitted
  submitted_complete r document now done = ground (arith, eq_iff r.status status_complete)

  submit-IsDone :
      (id : String) (x : Submission) (s : State D N)
      → IsDone id s.table
      → IsDone id (submit repo application x.application_id x.document_id x.now s).1.table
  submit-IsDone id x s (r, held, done) =
      elim (submit_table x.application_id x.document_id x.now s id) [
        | inl same ↦ (r, ground arith, done)
        | inr (own, written) ↦ (
          submitted r x.document_id x.now,
          ground arith,
          submitted_complete r x.document_id x.now done,
        )
      ]

  attempts-IsDone :
      (id : String) (xs : List Submission) (s : State D N)
      → IsDone id s.table
      → IsDone id (attempts xs s).table
  unfolding attempts
  attempts-IsDone id [] s done = done
  attempts-IsDone id (x ∷ xs) s done = attempts-IsDone id xs _ (submit-IsDone id x s done)

  -- A failed update is never made good: if the submission completes the record and the update of
  -- the application fails, the submission fails, and after any further submissions, of this and of
  -- other applications, a submission for this application does not call
  -- application-management-service. (A save that fails is taken to be carried out or not.)
  pub submit_stranded :
      (id document : String) (now : ℕ) (s : State D N) (old : Record) (e : Error)
      → is_known_document document ≡ true
      → (repo.get id s.table).0 ≡ ok old
      → completes old document now ≡ true
      → (repo.save (submitted old document now) (repo.get id s.table).1).0 ≡ ok tt
      → (application.update_status id "OFFER_ACCEPTED" s.applications).0 ≡ err e
      → let (answer, after) = submit repo application id document now s in
        (answer ≡ err (wrap "advancing application status" e))
        × ((between : List Submission) (later : String) (time : ℕ)
            → let reached = attempts between after in
              (submit repo application id later time reached).1.applications ≡ reached.applications)
  submit_stranded id document now s old e known got due saved failed =
      let (answer, held, done) =
        submit_document_update_fails application law id document now s old e known got due saved
          failed in
      let after = (submit repo application id document now s).1 in
      let full = submitted old document now in
      let complete : full.status ≡ status_complete =
        ground (arith, eq_iff full.status status_complete) in
      (
        answer,
        λ between later time.
            let (r, there, over) = attempts-IsDone id between after (full, held, complete) in
            submit_complete_silent application law id later time (attempts between after) r there
              over,
      )
