-- ===== src/Workflow/Names.antt =====
-- The state machine's names (pricing-orchestration-service/statemachine/definition.asl.json) against
-- the table of workflow-status-service/internal/workflowstatus/translate.go.
use psr_pl.Base.{String, Bool, true, false, ◌≡◌, ◌≢◌, ◌↔◌, arith, eq_iff}
use psr_pl.Status.Model.{processing, offer_pending}
use psr_pl.Status.Translate.{for_running_state}
use psr_pl.Workflow.Machine.{
  StateName, soft_pull_request, pricing_calculation_task, await_offer_selection,
  consent_given_check, consent_declined, hard_pull_request, decision_routing_task,
  update_application_status,
}

unfoldable pub state_text : StateName → String
state_text soft_pull_request = "SoftPullRequest"
state_text pricing_calculation_task = "PricingCalculation"
state_text await_offer_selection = "AwaitOfferSelection"
state_text consent_given_check = "ConsentGivenCheck"
state_text consent_declined = "ConsentDeclined"
state_text hard_pull_request = "HardPullRequest"
state_text decision_routing_task = "DecisionRouting"
state_text update_application_status = "UpdateApplicationStatus"

-- The states in which the offers have been presented and nothing has been decided on them.
abbrev pub has_offers_out : StateName → Bool
has_offers_out await_offer_selection = true
has_offers_out consent_given_check = true
has_offers_out _ = false

-- Every state of the machine is in the table of statuses: an applicant never sees the generic
-- PROCESSING for it, and sees OFFER_PENDING exactly in the two states in which the offers have been
-- presented and no consent has been acted on.
pub state_status_complete :
    (id : String) (n : StateName)
    → ((for_running_state id (state_text n)).status ≢ processing)
      × (((for_running_state id (state_text n)).status ≡ offer_pending) ↔ (has_offers_out n ≡ true))
unfolding for_running_state state_text
state_status_complete id soft_pull_request =
    ground (arith, eq_iff "SOFT_PULL_PENDING" processing, eq_iff "SOFT_PULL_PENDING" offer_pending)
state_status_complete id pricing_calculation_task =
    ground (arith, eq_iff "PRICING_PENDING" processing, eq_iff "PRICING_PENDING" offer_pending)
state_status_complete id await_offer_selection =
    ground (arith, eq_iff "OFFER_PENDING" processing, eq_iff "OFFER_PENDING" offer_pending)
state_status_complete id consent_given_check =
    ground (arith, eq_iff "OFFER_PENDING" processing, eq_iff "OFFER_PENDING" offer_pending)
state_status_complete id consent_declined =
    ground (arith, eq_iff "DECISION_PENDING" processing, eq_iff "DECISION_PENDING" offer_pending)
state_status_complete id hard_pull_request =
    ground (arith, eq_iff "HARD_PULL_PENDING" processing, eq_iff "HARD_PULL_PENDING" offer_pending)
state_status_complete id decision_routing_task =
    ground (arith, eq_iff "DECISION_PENDING" processing, eq_iff "DECISION_PENDING" offer_pending)
state_status_complete id update_application_status =
    ground (arith, eq_iff "DECISION_PENDING" processing, eq_iff "DECISION_PENDING" offer_pending)
