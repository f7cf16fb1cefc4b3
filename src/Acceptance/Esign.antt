-- ===== src/Acceptance/Esign.antt =====
-- What an e-signature does to the table and to application-management-service.
use psr_pl.Base.{
  ℕ, String, Option, none, some, List, ◌==◌, if◌then◌else◌, ◌≡◌, arith, eq_iff, inl, inr,
  Bool-cases, Has, All,
}
use psr_pl.Go.{Error, ok, err, Result-cases, wrap, sentinel, missing_required_declarations}
use psr_pl.Sets.{contains_all, contains_all_iff}
use psr_pl.Acceptance.Model.{EsignRecord, required_declaration_ids}
use psr_pl.Acceptance.Repository.{Repository, IsRepository}
use psr_pl.Acceptance.Service.{StatusUpdater, State, signature, esign}

-- Every required declaration is among the accepted ids.
abbrev pub AcceptsRequired : List String → Type 0
AcceptsRequired accepted = All (λ id. Has id accepted) required_declaration_ids

module _ {D N : Type 0} {repo : Repository D} (application : StatusUpdater N)
    {stored : D → String → Option EsignRecord} (law : IsRepository repo stored) where
  -- After a successful e-signature every required declaration was accepted, there was no signature
  -- before, the new one is stored with exactly what was accepted, no other record has changed, and
  -- the application was advanced to DOCUMENTS_REQUIRED.
  pub esign_succeeds :
      (id : String) (accepted : List String) (now : ℕ) (s : State D N) (r : EsignRecord)
      → (esign repo application id accepted now s).0 ≡ ok r
      → let after = (esign repo application id accepted now s).1 in
        AcceptsRequired accepted
        × (r ≡ record { application_id = id; accepted_declaration_ids = accepted; signed_at = now })
        × (stored s.table id ≡ none)
        × ((j : String) → stored after.table j ≡ (if id == j then some r else stored s.table j))
        × (application.update_status id "DOCUMENTS_REQUIRED" s.applications
            ≡ (ok tt, after.applications))
  unfolding esign
  esign_succeeds id accepted now s r h =
      let made : (repo.create (signature id accepted now) s.table).0 ≡ ok tt = ground arith in
      let c = law.create_writes in
      (
        (contains_all_iff accepted required_declaration_ids).0 (ground arith),
        ground arith,
        c.checks (signature id accepted now) s.table made,
        λ j. ground (arith, c.writes (signature id accepted now) s.table j),
        ground arith,
      )

  -- A signature is final: where one is stored, another attempt fails, every record is as it was, and
  -- application-management-service is not called.
  pub esign_final :
      (id : String) (accepted : List String) (now : ℕ) (s : State D N) (r : EsignRecord)
      → stored s.table id ≡ some r
      → let (answer, after) = esign repo application id accepted now s in
        ((e : Error) × (answer ≡ err e))
        × ((j : String) → stored after.table j ≡ stored s.table j)
        × (after.applications ≡ s.applications)
  unfolding esign
  esign_final id accepted now s r held =
      let new = signature id accepted now in
      let c = law.create_writes in
      elim (Bool-cases (contains_all accepted required_declaration_ids)) [
        | inl all_there ↦ elim (Result-cases (repo.create new s.table).0) [
          | inl (_, made) ↦ absurd (ground (arith, c.checks new s.table made))
          | inr (e, failed) ↦ (
            (wrap "recording e-signature" e, ground arith),
            λ j. ground (arith, c.blocked new s.table j (rw held tt)),
            ground arith,
          )
        ]
        | inr missing ↦ (
          (sentinel missing_required_declarations, ground arith),
          λ j. ground arith,
          ground arith,
        )
      ]

  -- Without every required declaration nothing happens: the answer is the error value for it, and
  -- the state is the same.
  pub esign_partial :
      (id : String) (accepted : List String) (now : ℕ) (s : State D N)
      → ¬ AcceptsRequired accepted
      → esign repo application id accepted now s ≡ (err (sentinel missing_required_declarations), s)
  unfolding esign
  esign_partial id accepted now s n =
      ground (arith, contains_all_iff accepted required_declaration_ids)

  pub recorded_anyway :
      (id : String) (accepted : List String) (now : ℕ) (s : State D N)
      → AcceptsRequired accepted
      → (repo.create (signature id accepted now) s.table).0 ≡ ok tt
      → stored (esign repo application id accepted now s).1.table id
        ≡ some (signature id accepted now)
  unfolding esign
  recorded_anyway id accepted now s full made = ground (
    arith,
    contains_all_iff accepted required_declaration_ids,
    eq_iff id id,
    law.create_writes.writes (signature id accepted now) s.table id,
  )

  pub update_failure :
      (id : String) (accepted : List String) (now : ℕ) (s : State D N) (e : Error)
      → AcceptsRequired accepted
      → (repo.create (signature id accepted now) s.table).0 ≡ ok tt
      → (application.update_status id "DOCUMENTS_REQUIRED" s.applications).0 ≡ err e
      → (esign repo application id accepted now s).0 ≡ err (wrap "advancing application status" e)
  unfolding esign
  update_failure id accepted now s e full made failed =
      ground (arith, contains_all_iff accepted required_declaration_ids)
