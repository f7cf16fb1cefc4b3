-- ===== src/OfferSelection/Interleaved.antt =====
-- Two confirmations at the same time: pricing-orchestration-service/internal/offerselection/service.go
-- reads the record, resumes the workflow and then writes the record.
use psr_pl.Base.{String, Bool, ◌≡◌, Option, some, arith, eq_refl, inl, inr, ap, subst}
use psr_pl.Go.{Result-cases, wrap_result-ok, Error, Result, ok, err, Exec, pure, attempt, ◌>>=◌}
use psr_pl.Pricing.Model.{OfferOption}
use psr_pl.OfferSelection.Model.{SelectedOffer}
use psr_pl.OfferSelection.Repository.{Repository, IsRepository}
use psr_pl.OfferSelection.Service.{
  WorkflowResumer, State, find_offer, confirmed, get, confirm, confirm_offer,
}

module _ {D W : Type 0} (repo : Repository D) (workflow : WorkflowResumer W) where
  -- A confirmation reads the record, as `Get` does, and then confirms what it read.
  confirm_phases :
      (id selected : String) (consent : Bool) (s : State D W)
      → confirm repo workflow id selected consent s
        ≡ (get repo workflow id >>= λ offer. confirm_offer repo workflow offer selected consent) s
  unfolding confirm get
  confirm_phases id selected consent s = ground arith

  -- Both confirmations read before either of them resumes the workflow; each has its own answer.
  unfoldable pub confirm_both :
      String
      → String × Bool
      → String × Bool
      → Exec (State D W) (Result SelectedOffer × Result SelectedOffer)
  confirm_both id (first, consent) (second, consent') = do
    offer ← get repo workflow id
    offer' ← get repo workflow id
    answer ← attempt (confirm_offer repo workflow offer first consent)
    answer' ← attempt (confirm_offer repo workflow offer' second consent')
    pure (answer, answer')

module _ {D W : Type 0} {repo : Repository D} (workflow : WorkflowResumer W)
    {stored : D → String → Option SelectedOffer} (law : IsRepository repo stored) where
  get_lem :
      (id : String) (s : State D W) (offer : SelectedOffer)
      → (get repo workflow id s).0 ≡ ok offer
      → (stored s.table id ≡ some offer)
        × (offer.application_id ≡ id)
        × (stored (get repo workflow id s).1.table id ≡ stored s.table id)
  unfolding get
  get_lem id s offer h =
      let found = law.get_reads.found id s.table offer (wrap_result-ok _ _ h) in
      (found, law.keyed s.table id offer found, law.get_reads.keeps id s.table id)

  first_lem :
      (offer r : SelectedOffer) (selected : String) (consent : Bool) (s : State D W)
      → (confirm_offer repo workflow offer selected consent s).0 ≡ ok r
      → let after = (confirm_offer repo workflow offer selected consent s).1 in
        (stored after.table offer.application_id ≡ some r)
        × (chosen : OfferOption) × (workflow.resume offer.task_token consent chosen s.workflow
            ≡ (ok tt, after.workflow))
  unfolding confirm_offer
  first_lem offer r selected consent s h = elim (Result-cases (find_offer offer.offers selected)) [
    | inl (chosen, found) ↦ (
      ground (
        arith,
        eq_refl offer.application_id,
        law.update_writes.writes (confirmed offer selected consent) s.table offer.application_id,
      ),
      chosen,
      ground arith,
    )
    | inr (e, failed) ↦ absurd (ground arith)
  ]

  -- Where the workflow refuses every answer, a confirmation fails and writes nothing.
  second_lem :
      (offer : SelectedOffer) (selected : String) (consent : Bool) (s : State D W)
      → ((x : OfferOption)
          → (e : Error) × ((workflow.resume offer.task_token consent x s.workflow).0 ≡ err e))
      → let (answer, after) = confirm_offer repo workflow offer selected consent s in
        ((e : Error) × (answer ≡ err e)) × (after.table ≡ s.table)
  unfolding confirm_offer
  second_lem offer selected consent s refuses =
      elim (Result-cases (find_offer offer.offers selected)) [
        | inl (chosen, found) ↦
            let (f, refused) = refuses chosen in
            elim (Result-cases (confirm_offer repo workflow offer selected consent s).0) [
              | inl (r, succeeded) ↦ absurd (ground arith)
              | inr (e, failed) ↦ ((e, failed), ground arith)
            ]
        | inr (f, missing) ↦
            elim (Result-cases (confirm_offer repo workflow offer selected consent s).0) [
              | inl (r, succeeded) ↦ absurd (ground arith)
              | inr (e, failed) ↦ ((e, failed), ground arith)
            ]
      ]

  -- Two confirmations of one application that both read it before either resumes the workflow, where
  -- the workflow takes one answer for a task token: if the first succeeds, the second fails, and what
  -- is stored is the first one's selection.
  pub confirm_both_once :
      (id : String) (first second : String × Bool) (s : State D W) (r : SelectedOffer)
      (answer : Result SelectedOffer)
      → ((token : String) (c c' : Bool) (x x' : OfferOption) (w : W)
          → (workflow.resume token c x w).0 ≡ ok tt
          → (e : Error) × ((workflow.resume token c' x' (workflow.resume token c x w).1).0 ≡ err e))
      → (confirm_both repo workflow id first second s).0 ≡ ok (ok r, answer)
      → ((e : Error) × (answer ≡ err e))
        × (stored (confirm_both repo workflow id first second s).1.table id ≡ some r)
  unfolding confirm_both
  confirm_both_once id (a, c) (b, c') s r answer once h =
      let s1 = (get repo workflow id s).1 in
      let s2 = (get repo workflow id s1).1 in
      elim (Result-cases (get repo workflow id s).0) [
        | inl (offer, got) ↦ elim (Result-cases (get repo workflow id s1).0) [
          | inl (again, got') ↦
              let (held, own, kept) = get_lem id s offer got in
              let (held', _, _) = get_lem id s1 again got' in
              let same : again ≡ offer = ground arith in
              let taken : (confirm_offer repo workflow offer a c s2).0 ≡ ok r = ground arith in
              let s3 = (confirm_offer repo workflow offer a c s2).1 in
              let (wrote, chosen, resumed) = first_lem offer r a c s2 taken in
              let Refuses = λ (w : W).
                (x : OfferOption)
                → (e : Error) × ((workflow.resume offer.task_token c' x w).0 ≡ err e) in
              let refuses : Refuses s3.workflow =
                subst Refuses (ap (λ p. p.1) resumed)
                  (λ x. once offer.task_token c c' chosen x s2.workflow (ap (λ p. p.0) resumed)) in
              let ((e, refused), unchanged) = second_lem offer b c' s3 refuses in
              ((e, ground arith), ground arith)
          | inr (e, failed) ↦ absurd (ground arith)
        ]
        | inr (e, failed) ↦ absurd (ground arith)
      ]
