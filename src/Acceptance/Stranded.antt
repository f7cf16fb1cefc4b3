-- ===== src/Acceptance/Stranded.antt =====
-- What becomes of an application whose update failed: later e-signatures.
use psr_pl.Base.{
  ℕ, String, Option, some, List, [], ◌∷◌, ◌≡◌, ◌⊎◌, inl, inr, arith, eq_iff, ◌==◌, if◌then◌else◌,
  Bool-cases,
}
use psr_pl.Go.{Error, ok, err, Result-cases, wrap}
use psr_pl.Sets.{contains_all}
use psr_pl.Acceptance.Model.{EsignRecord, required_declaration_ids}
use psr_pl.Acceptance.Repository.{Repository, IsRepository}
use psr_pl.Acceptance.Service.{StatusUpdater, State, signature, esign}
use psr_pl.Acceptance.Esign.{AcceptsRequired, esign_final, recorded_anyway, update_failure}

-- A creation that fails has been carried out or not: it touches no other record.
abbrev pub FailsWhole : {D : Type 0} → Repository D → (D → String → Option EsignRecord) → Type 0
FailsWhole {D} repo stored =
    (r : EsignRecord) (t : D) (e : Error) (j : String)
    → (repo.create r t).0 ≡ err e
    → (stored (repo.create r t).1 j ≡ stored t j)
      ⊎ (stored (repo.create r t).1 j ≡ (if r.application_id == j then some r else stored t j))

pub record Attempt : Type 0 where
  pub application_id : String
  pub accepted : List String
  pub now : ℕ

module _ {D N : Type 0} {repo : Repository D} (application : StatusUpdater N)
    {stored : D → String → Option EsignRecord} (law : IsRepository repo stored)
    (fails : FailsWhole repo stored) where
  -- The state after e-signatures, whichever of them succeed.
  unfoldable pub attempts : List Attempt → State D N → State D N
  attempts [] s = s
  attempts (x ∷ xs) s = attempts xs (esign repo application x.application_id x.accepted x.now s).1

  -- A signature that is stored stays as it is.
  esign_keeps :
      (id k : String) (accepted : List String) (now : ℕ) (s : State D N) (r : EsignRecord)
      → stored s.table k ≡ some r
      → stored (esign repo application id accepted now s).1.table k ≡ some r
  unfolding esign
  esign_keeps id k accepted now s r held =
      let new = signature id accepted now in
      let c = law.create_writes in
      elim (Bool-cases (id == k)) [
        | inl same ↦
            let (_, kept, _) =
              esign_final application law id accepted now s r (ground (arith, eq_iff id k)) in
            ground (arith, kept k)
        | inr other ↦ elim (Bool-cases (contains_all accepted required_declaration_ids)) [
          | inl all_there ↦ elim (Result-cases (repo.create new s.table).0) [
            | inl (u, made) ↦ ground (arith, c.writes new s.table k made)
            | inr (e, failed) ↦ ground (arith, fails new s.table e k failed)
          ]
          | inr missing ↦ ground arith
        ]
      ]

  attempts-keeps :
      (k : String) (xs : List Attempt) (s : State D N) (r : EsignRecord)
      → stored s.table k ≡ some r
      → stored (attempts xs s).table k ≡ some r
  unfolding attempts
  attempts-keeps k [] s r held = held
  attempts-keeps k (x ∷ xs) s r held =
      attempts-keeps k xs _ r (esign_keeps x.application_id k x.accepted x.now s r held)

  -- A failed update is never made good: if the signature is recorded and the update of the
  -- application fails, the e-signature fails, and after any further attempts, for this and for other
  -- applications, an attempt for this application fails and does not call
  -- application-management-service, and the first signature is still the stored one. (A creation
  -- that fails is taken to be carried out or not.)
  pub esign_stranded :
      (id : String) (accepted : List String) (now : ℕ) (s : State D N) (e : Error)
      → AcceptsRequired accepted
      → (repo.create (signature id accepted now) s.table).0 ≡ ok tt
      → (application.update_status id "DOCUMENTS_REQUIRED" s.applications).0 ≡ err e
      → let (answer, after) = esign repo application id accepted now s in
        (answer ≡ err (wrap "advancing application status" e))
        × ((between : List Attempt) (again : List String) (later : ℕ)
            → let reached = attempts between after in
              let (retry, final) = esign repo application id again later reached in
              ((f : Error) × (retry ≡ err f))
              × (final.applications ≡ reached.applications)
              × (stored final.table id
                  ≡ some (record {
                    application_id = id;
                    accepted_declaration_ids = accepted;
                    signed_at = now;
                  })))
  esign_stranded id accepted now s e full made failed = (
    update_failure application law id accepted now s e full made failed,
    λ between again later.
        let after = (esign repo application id accepted now s).1 in
        let held =
          attempts-keeps id between after (signature id accepted now)
            (recorded_anyway application law id accepted now s full made) in
        let (answer, same, silent) =
          esign_final application law id again later (attempts between after) _ held in
        (answer, silent, ground (arith, same id)),
  )
