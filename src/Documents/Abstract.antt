-- ===== src/Documents/Abstract.antt =====
-- What document-service promises: a set of submitted documents for each application. The order of the
-- ids in a record, and repetitions, are forgotten.
use mathlib.Core.Path.{fun_ext}
use psr_pl.Base.{
  ℕ, String, Bool, true, Option, some, List, [], ◌∷◌, ◌++◌, ◌==◌, if◌then◌else◌, ◌≡◌, ◌↔◌, refl,
  arith, eq_iff, inl, inr, Bool-cases, All, All-imp, Has, ◌∙◌, ap,
}
use psr_pl.Go.{Exec, ok, Result-cases, pure, ◌>>◌}
use psr_pl.Documents.Model.{Record, status_complete, required_document_ids}
use psr_pl.Documents.Repository.{Repository, IsRepository}
use psr_pl.Documents.Sets.{contains_iff}
use psr_pl.Documents.Service.{StatusUpdater, State, contains, submitted, submit}
use psr_pl.Documents.Progress.{IsWellFormed, ids_after, submitted_ids}
use psr_pl.Documents.Submit.{
  or_fresh, submit_document_succeeds, submit-IsWellFormed, or_fresh-IsWellFormed,
}

-- Whether an application (first) has a document (second).
abbrev pub Submissions : Type 0
Submissions = String → String → Bool

abbrev pub insert_document : String → String → Submissions → Submissions
insert_document id document set j d =
    if id == j then (if document == d then true else set j d) else set j d

-- The sets that a table holds.
abbrev pub view : {D : Type 0} → (D → String → Option Record) → D → Submissions
view stored t j d = contains (or_fresh j (stored t j)).submitted_document_ids d

contains-append :
    (ids : List String) (id d : String)
    → contains (ids ++ id ∷ []) d ≡ (if id == d then true else contains ids d)
unfolding contains
contains-append [] id d = refl
contains-append (x ∷ xs) id d = ground (arith, contains-append xs id d)

contains-ids_after :
    (ids : List String) (id d : String)
    → contains (ids_after ids id) d ≡ (if id == d then true else contains ids d)
contains-ids_after ids id d = elim (Bool-cases (contains ids id)) [
  | inl old ↦ ground (arith, eq_iff id d)
  | inr new ↦ rw new (contains-append ids id d)
]

contains-submitted :
    (r : Record) (id d : String) (now : ℕ)
    → contains (submitted r id now).submitted_document_ids d
      ≡ (if id == d then true else contains r.submitted_document_ids d)
contains-submitted r id d now = rw (submitted_ids r id now) (contains-ids_after _ id d)

pub record Submission : Type 0 where
  pub application_id : String
  pub document_id : String
  pub now : ℕ

-- The same submissions, on the sets.
unfoldable pub replay : List Submission → Submissions → Submissions
replay [] set = set
replay (x ∷ xs) set = replay xs (insert_document x.application_id x.document_id set)

module _ {D N : Type 0} {repo : Repository D} (application : StatusUpdater N)
    {stored : D → String → Option Record} (law : IsRepository repo stored) where
  -- Submissions one after the other, up to the first that fails.
  unfoldable pub run : List Submission → Exec (State D N) (Unit {0})
  run [] = pure tt
  run (x ∷ xs) = do submit repo application x.application_id x.document_id x.now; run xs

  -- A successful submission inserts the document into the set of its application.
  submit-insert_document :
      (id document : String) (now : ℕ) (s : State D N) (r : Record)
      → (submit repo application id document now s).0 ≡ ok r
      → view stored (submit repo application id document now s).1.table
        ≡ insert_document id document (view stored s.table)
  submit-insert_document id document now s r h =
      let (known, same, held, _) = submit_document_succeeds application law id document now s r h in
      fun_ext (λ j. fun_ext (λ d. elim (Bool-cases (id == j)) [
        | inl here ↦
            let e : id ≡ j = ground (arith, eq_iff id j) in
            ground
              (arith, held j, contains-submitted (or_fresh id (stored s.table id)) document d now)
        | inr other ↦ ground (arith, held j)
      ]))

  -- Every stored record is well formed.
  abbrev pub AllWellFormed : D → Type 0
  AllWellFormed t = (k : String) (x : Record) → stored t k ≡ some x → IsWellFormed x

  run-view :
      (xs : List Submission) (s : State D N)
      → AllWellFormed s.table
      → (run xs s).0 ≡ ok tt
      → AllWellFormed (run xs s).1.table
        × (view stored (run xs s).1.table ≡ replay xs (view stored s.table))
  unfolding run replay
  run-view [] s w h = (w, refl)
  run-view (x ∷ xs) s w h =
      let first = submit repo application x.application_id x.document_id x.now s in
      elim (Result-cases first.0) [
        | inl (r, done) ↦
            let kept : AllWellFormed first.1.table =
              submit-IsWellFormed application law x.application_id x.document_id x.now s r w done in
            let (w', seen) = run-view xs first.1 kept (ground arith) in
            let inserted = submit-insert_document x.application_id x.document_id x.now s r done in
            rw done (w', seen ∙ ap (replay xs) inserted)
        | inr (e, failed) ↦ absurd (ground arith)
      ]

  complete_of_set :
      (r : Record)
      → IsWellFormed r
      → (r.status ≡ status_complete)
        ↔ All (λ d. contains r.submitted_document_ids d ≡ true) required_document_ids
  complete_of_set r w =
      let ids = r.submitted_document_ids in
      let (to, from) = w.complete_iff in
      (
        λ h.
            All-imp (λ d. Has d ids) (λ d. contains ids d ≡ true) required_document_ids
              (λ d. (contains_iff ids d).1) (to h),
        λ h. from (
            All-imp (λ d. contains ids d ≡ true) (λ d. Has d ids) required_document_ids
              (λ d. (contains_iff ids d).0) h),
      )

  -- Any sequence of submissions that succeed leaves the sets that the same insertions leave, and a
  -- record says that it is complete exactly if the set of its application has every required
  -- document.
  pub run_refines :
      (xs : List Submission) (s : State D N)
      → AllWellFormed s.table
      → (run xs s).0 ≡ ok tt
      → let after = (run xs s).1 in
        let sets = replay xs (view stored s.table) in
        (view stored after.table ≡ sets)
        × ((j : String)
            → ((or_fresh j (stored after.table j)).status ≡ status_complete)
              ↔ All (λ d. sets j d ≡ true) required_document_ids)
  run_refines xs s w h =
      let (w', seen) = run-view xs s w h in
      let after = (run xs s).1 in
      (
        seen,
        λ j. rw (← seen) (
            complete_of_set (or_fresh j (stored after.table j))
              (or_fresh-IsWellFormed j (stored after.table j) (w' j))),
      )
