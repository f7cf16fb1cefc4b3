-- ===== src/OfferSelection/Confirm.antt =====
-- What a confirmation does to the record and to the workflow.
use psr_pl.Base.{inl, inr, String, Bool, ◌==◌, if◌then◌else◌, ◌≡◌, ◌≢◌, Option, some, arith, eq_iff}
use psr_pl.Go.{Result-cases, Error, ok, err, sentinel, wrap, already_confirmed}
use psr_pl.Pricing.Model.{OfferOption}
use psr_pl.OfferSelection.Model.{SelectedOffer, status_confirmed}
use psr_pl.OfferSelection.Repository.{Repository, IsRepository}
use psr_pl.OfferSelection.Service.{WorkflowResumer, State, find_offer, confirmed, confirm}

module _ {D W : Type 0} {repo : Repository D} (workflow : WorkflowResumer W)
    {stored : D → String → Option SelectedOffer} (r : IsRepository repo stored) where
  -- A successful confirmation found a pending record, and the selected id among its offers. It
  -- resumed the workflow once, with that record's task token, the consent and that offer. The
  -- record is now stored with the status CONFIRMED, the consent and the selected id, and with its
  -- offers and its task token as they were; no other record has changed.
  pub confirm_succeeds :
      (id selected : String) (consent : Bool) (s : State D W) (result : SelectedOffer)
      → (confirm repo workflow id selected consent s).0 ≡ ok result
      → let after = (confirm repo workflow id selected consent s).1 in
        (offer : SelectedOffer) × (chosen : OfferOption) × (stored s.table id ≡ some offer)
        × (offer.status ≢ status_confirmed)
        × (find_offer offer.offers selected ≡ ok chosen)
        × (workflow.resume offer.task_token consent chosen s.workflow ≡ (ok tt, after.workflow))
        × (result ≡ record {
          application_id = offer.application_id;
          offers = offer.offers;
          selected_offer_id = selected;
          status = "CONFIRMED";
          consent_given = consent;
          task_token = offer.task_token;
        })
        × ((j : String)
            → stored after.table j ≡ (if id == j then some result else stored s.table j))
  unfolding confirm
  confirm_succeeds id selected consent s result h = elim (Result-cases (repo.get id s.table).0) [
    | inl (offer, got) ↦ elim (Result-cases (find_offer offer.offers selected)) [
      | inl (chosen, found) ↦ (
        offer,
        chosen,
        r.get_reads.found id s.table offer got,
        ground (arith, eq_iff offer.status status_confirmed),
        found,
        ground (arith),
        ground (arith),
        λ j. ground (
          arith,
          r.get_reads.found id s.table offer got,
          r.keyed s.table id offer,
          r.get_reads.keeps id s.table j,
          r.update_writes.writes (confirmed offer selected consent) (repo.get id s.table).1 j,
        ),
      )
      | inr (e, failed) ↦ absurd (ground arith)
    ]
    | inr (e, failed) ↦ absurd (ground arith)
  ]

  -- If resuming fails, the confirmation fails with that error, and every record is as it was: a
  -- pending record stays pending, and can be confirmed later.
  pub confirm_resume_fails :
      (id selected : String) (consent : Bool) (s : State D W) (offer : SelectedOffer)
      (chosen : OfferOption) (e : Error)
      → (repo.get id s.table).0 ≡ ok offer
      → offer.status ≢ status_confirmed
      → find_offer offer.offers selected ≡ ok chosen
      → (workflow.resume offer.task_token consent chosen s.workflow).0 ≡ err e
      → let (answer, after) = confirm repo workflow id selected consent s in
        (answer ≡ err (wrap "resuming workflow" e))
        × ((j : String) → stored after.table j ≡ stored s.table j)
  unfolding confirm
  confirm_resume_fails id selected consent s offer chosen e got pending found failed = (
    ground (arith, eq_iff offer.status status_confirmed),
    λ j. ground (arith, eq_iff offer.status status_confirmed, r.get_reads.keeps id s.table j),
  )

  -- A confirmed record is never confirmed or resumed again: the answer is an error, no call reaches
  -- the workflow, and no record changes.
  pub confirm_once :
      (id selected : String) (consent : Bool) (s : State D W) (offer : SelectedOffer)
      → stored s.table id ≡ some offer
      → offer.status ≡ status_confirmed
      → let (answer, after) = confirm repo workflow id selected consent s in
        ((e : Error) × (answer ≡ err e))
        × (after.workflow ≡ s.workflow)
        × ((j : String) → stored after.table j ≡ stored s.table j)
  unfolding confirm
  confirm_once id selected consent s offer held done = elim (Result-cases (repo.get id s.table).0) [
    | inl (seen, got) ↦
        let same = r.get_reads.found id s.table seen got in
        (
          (sentinel already_confirmed, ground (arith, eq_iff seen.status status_confirmed)),
          ground (arith, eq_iff seen.status status_confirmed),
          λ j. ground (arith, eq_iff seen.status status_confirmed, r.get_reads.keeps id s.table j),
        )
    | inr (e, failed) ↦ (
      (wrap "getting selected offer" e, ground arith),
      ground arith,
      λ j. ground (arith, r.get_reads.keeps id s.table j),
    )
  ]
