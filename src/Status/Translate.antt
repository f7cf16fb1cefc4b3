-- ===== src/Status/Translate.antt =====
-- workflow-status-service/internal/workflowstatus/translate.go
use psr_pl.Base.{String, Option, none, some, List, [], ◌∷◌, ◌==◌, if◌then◌else◌}
use psr_pl.Status.Model.{
  NextStep, WorkflowStatus, processing, soft_pull_pending, pricing_pending, offer_pending,
  hard_pull_pending, decision_pending, error,
}

abbrev pub state_status : List (String × String)
state_status =
    ("SoftPullRequest", soft_pull_pending)
    ∷ ("PricingCalculation", pricing_pending)
    ∷ ("AwaitOfferSelection", offer_pending)
    ∷ ("ConsentGivenCheck", offer_pending)
    ∷ ("ConsentDeclined", decision_pending)
    ∷ ("HardPullRequest", hard_pull_pending)
    ∷ ("DecisionRouting", decision_pending)
    ∷ ("UpdateApplicationStatus", decision_pending)
    ∷ []

abbrev look_up : List (String × String) → String → Option String
look_up [] k = none
look_up ((j, v) ∷ m) k = if j == k then some v else look_up m k

abbrev or_processing : Option String → String
or_processing none = processing
or_processing (some s) = s

abbrev step : String → String → List NextStep
step action description = record { action = action; description = description } ∷ []

abbrev pub waiting_next_steps : List NextStep
waiting_next_steps =
    step "WAIT" "We're processing your application. This page will update automatically."

unfoldable pub for_running_state : String → String → WorkflowStatus
for_running_state application_id current_state = record {
  application_id = application_id;
  status = or_processing (look_up state_status current_state);
  current_step = current_state;
  next_steps = waiting_next_steps;
}

-- A status with no current step.
abbrev report : String → String → List NextStep → WorkflowStatus
report application_id status next_steps = record {
  application_id = application_id;
  status = status;
  current_step = "";
  next_steps = next_steps;
}

unfoldable pub for_error : String → WorkflowStatus
for_error application_id = report application_id error (
    step "CONTACT_SUPPORT"
      "Something went wrong processing your application. Please contact support.")

unfoldable pub for_application_status : String → String → WorkflowStatus
unfolding for_error
for_application_status application_id status =
    if status == "APPROVED"
    then report application_id "APPROVED" (step "SELECT_OFFER" "Review and accept your loan offer.")
    else if status == "DECLINED"
    then report application_id "DECLINED" (
        step "NONE"
          "This application was not approved. See your adverse action notice for details.")
    else if status == "REFERRED"
    then report application_id "REFERRED"
        (step "WAIT" "Your application requires manual review by our underwriting team.")
    else if status == "DOCUMENTS_REQUIRED"
    then report application_id "DOCUMENTS_REQUIRED"
        (step "UPLOAD_DOCUMENTS" "Upload the required documents to continue your application.")
    else if status == "OFFER_ACCEPTED"
    then report application_id "OFFER_ACCEPTED" (
        step "WAIT"
          "We are completing final verification and collecting your disbursement details before your loan can be funded.")
    else if status == "FUNDING_PENDING"
    then report application_id "FUNDING_PENDING"
        (step "WAIT" "Your loan funds are being prepared and will be disbursed shortly.")
    else if status == "FUNDED"
    then report application_id "FUNDED" (
        step "NONE"
          "Your loan has been funded. The funds have been sent to your nominated account.")
    else if status == "COMPLETED"
    then report application_id "COMPLETED"
        (step "NONE" "Your loan application is complete. Thank you for choosing us.")
    else for_error application_id
