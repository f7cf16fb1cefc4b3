-- ===== src/Workflow/Steps.antt =====
-- The pure steps: pricing-orchestration-service/cmd/soft-pull-lambda, hard-pull-lambda,
-- decision-lambda and pricing-calculation-lambda. Logging is left out.
use psr_pl.Base.{Option, none, some, List}
use psr_pl.Go.{Result, ok, err, text}
use psr_pl.Pricing.Model.{
  WorkflowInput, CreditSummary, OfferOption, OfferSelectionResult, Decision, WorkflowState,
}
use psr_pl.Pricing.Options.{price_options}
use psr_pl.Pricing.Decision.{decide}
use psr_pl.Pricing.Bureau.{simulated_credit_pull}

unfoldable pub soft_pull : WorkflowInput → Result CreditSummary
soft_pull input = ok (simulated_credit_pull input.application_id "SOFT_PULL")

unfoldable pub hard_pull : WorkflowState → Result CreditSummary
hard_pull input = ok (simulated_credit_pull input.application_id "HARD_PULL")

abbrev priced : WorkflowState → Option CreditSummary → Result (List OfferOption)
priced state none = err (text "pricing requires a completed soft pull")
priced state (some pull) = ok (price_options state.input pull)

unfoldable pub pricing_calculation : WorkflowState → Result (List OfferOption)
pricing_calculation state = priced state state.soft_pull

abbrev selected : Option OfferSelectionResult → Option OfferOption
selected none = none
selected (some r) = r.selected_offer

abbrev decided : Option OfferOption → Option CreditSummary → Result Decision
decided (some offer) (some pull) = ok (decide offer.priced pull)
decided none _ = err (text "decision requires a selected offer and a hard pull result")
decided (some offer) none = err (text "decision requires a selected offer and a hard pull result")

unfoldable pub decision_routing : WorkflowState → Result Decision
decision_routing input = decided (selected input.offer_selection) input.hard_pull
