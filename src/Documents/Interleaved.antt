-- ===== src/Documents/Interleaved.antt =====
-- Two submissions for one application at the same time: document-service/internal/document/service.go
-- reads the record, changes it, and saves it whole.
use psr_pl.Base.{
  ℕ, String, true, Option, some, ◌≡◌, ◌≢◌, inl, inr, arith, eq_refl, Has, sym, ◌∙◌, ◌∙◌,
}
use psr_pl.Go.{ok, Result-cases, Exec, ◌>>=◌, ◌>>◌}
use psr_pl.Documents.Model.{Record}
use psr_pl.Documents.Repository.{Repository, IsRepository}
use psr_pl.Documents.Service.{
  StatusUpdater, State, is_known_document, submitted, get, store, submit,
}
use psr_pl.Documents.Progress.{submitted_ids, Has-ids_after_self}
use psr_pl.Documents.Orders.{Has-ids_after_cases}
use psr_pl.Documents.Submit.{or_fresh, loaded_lem, submitted_application_id}

module _ {D N : Type 0} (repo : Repository D) (application : StatusUpdater N) where
  -- The submission of a known document reads the record, as `Get` does, and then stores the new one.
  submit_phases :
      (id document : String) (now : ℕ) (s : State D N)
      → is_known_document document ≡ true
      → submit repo application id document now s
        ≡ (do
          old ← get repo application id
          store repo application id old (submitted old document now))
            s
  unfolding submit get
  submit_phases id document now s known = ground arith

  -- Both submissions read before either of them stores.
  unfoldable pub submit_both : String → String → String → ℕ → Exec (State D N) Record
  submit_both id first second now = do
    old ← get repo application id
    old' ← get repo application id
    store repo application id old (submitted old first now)
    store repo application id old' (submitted old' second now)

module _ {D N : Type 0} {repo : Repository D} (application : StatusUpdater N)
    {stored : D → String → Option Record} (law : IsRepository repo stored) where
  get_lem :
      (id : String) (s : State D N) (old : Record)
      → (get repo application id s).0 ≡ ok old
      → (old ≡ or_fresh id (stored s.table id))
        × (old.application_id ≡ id)
        × ((j : String) → stored (get repo application id s).1.table j ≡ stored s.table j)
  unfolding get
  get_lem id s old h =
      let (same, own) = loaded_lem application law id s.table old (ground arith) in
      (same, own, λ j. ground (arith, law.get_reads.keeps id s.table j))

  store_lem :
      (id : String) (s : State D N) (old new r : Record)
      → new.application_id ≡ id
      → (store repo application id old new s).0 ≡ ok r
      → (r ≡ new) × (stored (store repo application id old new s).1.table id ≡ some new)
  store_lem id s old new r own h = ground (arith, law.save_writes.writes new s.table id, eq_refl id)

  lost :
      (r : Record) (first second : String) (now : ℕ)
      → first ≢ second
      → ¬ Has first r.submitted_document_ids
      → ¬ Has first (submitted r second now).submitted_document_ids
  lost r first second now differ fresh h =
      elim (Has-ids_after_cases r.submitted_document_ids second first (rw submitted_ids at h)) [
        | inl old ↦ fresh old
        | inr same ↦ differ (sym same)
      ]

  both_phases :
      (id first second : String) (now : ℕ) (s : State D N) (r : Record)
      → (submit_both repo application id first second now s).0 ≡ ok r
      → (old again : Record) × (between : State D N) × ((get repo application id s).0 ≡ ok old)
        × ((get repo application id (get repo application id s).1).0 ≡ ok again)
        × ((store repo application id again (submitted again second now) between).0 ≡ ok r)
        × ((submit_both repo application id first second now s).1
            ≡ (store repo application id again (submitted again second now) between).1)
  unfolding submit_both
  both_phases id first second now s r h =
      let s1 = (get repo application id s).1 in
      let s2 = (get repo application id s1).1 in
      elim (Result-cases (get repo application id s).0) [
        | inl (old, got) ↦ elim (Result-cases (get repo application id s1).0) [
          | inl (again, got') ↦
              let stored_first = store repo application id old (submitted old first now) s2 in
              elim (Result-cases stored_first.0) [
                | inl (u, done) ↦
                    (old, again, stored_first.1, got, got', ground arith, ground arith)
                | inr (e, failed) ↦ absurd (ground arith)
              ]
          | inr (e, failed) ↦ absurd (ground arith)
        ]
        | inr (e, failed) ↦ absurd (ground arith)
      ]

  -- A lost update: if two submissions of different documents read the record before either of them
  -- stores it, and both succeed, the stored record has the second document and not the first, which
  -- was not there before.
  pub submit_both_loses :
      (id first second : String) (now : ℕ) (s : State D N) (r : Record)
      → first ≢ second
      → ¬ Has first (or_fresh id (stored s.table id)).submitted_document_ids
      → (submit_both repo application id first second now s).0 ≡ ok r
      → let after = (submit_both repo application id first second now s).1 in
        (stored after.table id ≡ some r)
        × Has second r.submitted_document_ids
        × (¬ Has first r.submitted_document_ids)
  unfolding submit_both
  submit_both_loses id first second now s r differ fresh h =
      let (old, again, between, got, got', stores, ends) = both_phases id first second now s r h in
      let s1 = (get repo application id s).1 in
      let (_, _, kept) = get_lem id s old got in
      let (same, own, _) = get_lem id s1 again got' in
      let read : again ≡ or_fresh id (stored s.table id) = ground (arith, kept id) in
      let new = submitted again second now in
      let (is_new, held) =
        store_lem id between again new r (submitted_application_id again second now ∙ own) stores in
      (
        ground arith,
        rw (is_new, submitted_ids) (Has-ids_after_self again.submitted_document_ids second),
        rw is_new (lost again first second now differ (rw read fresh)),
      )
