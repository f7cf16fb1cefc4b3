-- ===== src/Pricing/Model.antt =====
-- pricing-orchestration-service/internal/pricing/model.go. `float64` rates are tenths of a percent.
use psr_pl.Base.{ℕ, String, Bool, Option, List}
use psr_pl.Go.Int64.{ℤ}

pub record Address : Type 0 where
  pub line1 : String
  pub line2 : String
  pub city : String
  pub state : String
  pub postal_code : String

pub record WorkflowInput : Type 0 where
  pub application_id : String
  pub first_name : String
  pub last_name : String
  pub date_of_birth : String
  pub ssn : String
  pub address : Address
  pub requested_amount_cents : ℤ
  pub requested_term_months : ℤ
  pub annual_income_cents : ℤ
  pub monthly_obligations_cents : ℤ
  pub request_id : String

pub record CreditSummary : Type 0 where
  pub score : ℤ
  pub source : String

pub record PricedOffer : Type 0 where
  pub amount_cents : ℤ
  pub term_months : ℤ
  pub apr_tenths : ℕ

-- The source embeds `PricedOffer`: its fields are promoted.
pub record OfferOption : Type 0 where
  pub id : String
  pub label : String
  pub priced : PricedOffer
  pub open priced use *

pub record Decision : Type 0 where
  pub outcome : String
  pub reason : String

pub record OfferSelectionResult : Type 0 where
  pub consent_given : Bool
  pub selected_offer : Option OfferOption

pub record WorkflowState : Type 0 where
  pub input : WorkflowInput
  pub open input use *
  pub soft_pull : Option CreditSummary
  pub priced_offers : List OfferOption
  pub offer_selection : Option OfferSelectionResult
  pub hard_pull : Option CreditSummary
  pub decision : Option Decision
