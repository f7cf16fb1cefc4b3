-- ===== src/OfferSelection/Model.antt =====
-- pricing-orchestration-service/internal/offerselection/model.go
use psr_pl.Base.{String, Bool, List}
use psr_pl.Pricing.Model.{OfferOption}

abbrev pub status_pending_selection : String
status_pending_selection = "PENDING_SELECTION"

abbrev pub status_confirmed : String
status_confirmed = "CONFIRMED"

pub record SelectedOffer : Type 0 where
  pub application_id : String
  pub offers : List OfferOption
  pub selected_offer_id : String
  pub status : String
  pub consent_given : Bool
  pub task_token : String
