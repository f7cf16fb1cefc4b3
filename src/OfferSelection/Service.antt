-- ===== src/OfferSelection/Service.antt =====
-- pricing-orchestration-service/internal/offerselection/service.go. The table and Step Functions
-- are two systems, each with a state of its own that only its own calls change.
use psr_pl.Base.{String, Bool, List, [], ◌∷◌, ◌==◌, if◌then◌else◌}
use psr_pl.Go.{
  Result, ok, err, Exec, pure, raise, lift, wrapping, ◌>>=◌, ◌>>◌, sentinel, already_confirmed,
  offer_not_found,
}
use psr_pl.Pricing.Model.{OfferOption}
use psr_pl.OfferSelection.Model.{SelectedOffer, status_pending_selection, status_confirmed}
use psr_pl.OfferSelection.Repository.{Repository}

-- The Go interface `WorkflowResumer`: task token, consent, selected offer.
pub record WorkflowResumer (W : Type 0) : Type 0 where
  pub resume : String → Bool → OfferOption → Exec W (Unit {0})

pub record State (D W : Type 0) : Type 0 where
  pub table : D
  pub workflow : W

module _ {D W A : Type 0} where
  abbrev on_table : Exec D A → Exec (State D W) A
  on_table m s = let (r, t) = m s.table in (r, record s { table = t })

  abbrev on_workflow : Exec W A → Exec (State D W) A
  on_workflow m s = let (r, w) = m s.workflow in (r, record s { workflow = w })

unfoldable pub find_offer : List OfferOption → String → Result OfferOption
find_offer [] id = err (sentinel offer_not_found)
find_offer (o ∷ offers) id = if o.id == id then ok o else find_offer offers id

-- The record that `Confirm` writes.
abbrev pub confirmed : SelectedOffer → String → Bool → SelectedOffer
confirmed offer selected_offer_id consent_given = record offer {
  status = status_confirmed;
  consent_given = consent_given;
  selected_offer_id = selected_offer_id;
}

module _ {D W : Type 0} (repo : Repository D) (workflow : WorkflowResumer W) where
  unfoldable pub present : SelectedOffer → Exec (State D W) (Unit {0})
  present offer =
      wrapping "presenting offer"
        (on_table (repo.create (record offer { status = status_pending_selection })))

  unfoldable pub get : String → Exec (State D W) SelectedOffer
  get application_id = wrapping "getting selected offer" (on_table (repo.get application_id))

  -- `Confirm`, after the record was read.
  unfoldable pub confirm_offer : SelectedOffer → String → Bool → Exec (State D W) SelectedOffer
  confirm_offer offer selected_offer_id consent_given =
      if offer.status == status_confirmed then raise (sentinel already_confirmed) else do
        selected ← lift (find_offer offer.offers selected_offer_id)
        wrapping "resuming workflow"
            (on_workflow (workflow.resume offer.task_token consent_given selected))
        wrapping "updating selected offer"
            (on_table (repo.update (confirmed offer selected_offer_id consent_given)))
        pure (confirmed offer selected_offer_id consent_given)

  unfoldable pub confirm : String → String → Bool → Exec (State D W) SelectedOffer
  unfolding confirm_offer
  confirm application_id selected_offer_id consent_given = do
    offer ← wrapping "getting selected offer" (on_table (repo.get application_id))
    confirm_offer offer selected_offer_id consent_given
