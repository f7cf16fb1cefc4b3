-- ===== src/Workflow/Machine.antt =====
-- pricing-orchestration-service/statemachine/definition.asl.json as a step relation. A task that
-- fails ends the execution: the definition has no Retry and no Catch. The applicant's answer is any
-- that `Confirm` hands over: a consent, and an offer found among the presented ones.
use psr_pl.Base.{String, Bool, true, false, Option, none, some, List, ◌≡◌}
use psr_pl.Go.{ok}
use psr_pl.Http.{HttpClient}
use psr_pl.Pricing.Model.{
  WorkflowInput, CreditSummary, OfferOption, OfferSelectionResult, Decision, WorkflowState,
}
use psr_pl.OfferSelection.Service.{find_offer}
use psr_pl.Workflow.Steps.{soft_pull, hard_pull, pricing_calculation, decision_routing}
use psr_pl.Workflow.Effects.{update_status}

pub data StateName : Type 0 where
  soft_pull_request pricing_calculation_task await_offer_selection consent_given_check : StateName
  consent_declined hard_pull_request decision_routing_task update_application_status : StateName

pub data Execution : Type 0 where
  running : StateName → WorkflowState → Execution
  succeeded : WorkflowState → Execution
  failed : Execution

abbrev pub consent : Option OfferSelectionResult → Bool
consent none = false
consent (some r) = r.consent_given

abbrev pub answered : Bool → OfferOption → OfferSelectionResult
answered given o = record { consent_given = given; selected_offer = some o }

abbrev pub declined : Decision
declined = record { outcome = "DECLINED"; reason = "applicant did not give hard-pull consent" }

abbrev pub initial : WorkflowInput → Execution
initial input = running soft_pull_request (record {
  input = input;
  soft_pull = none;
  priced_offers = List.[];
  offer_selection = none;
  hard_pull = none;
  decision = none;
})

module _ {N : Type 0} (http : HttpClient N) (base_url : String) where
  pub data Step : Execution → Execution → Type 0 where
    soft_pulled :
        (s : WorkflowState) (c : CreditSummary)
        → soft_pull s.input ≡ ok c
        → Step
            (running soft_pull_request s)
            (running pricing_calculation_task (record s { soft_pull = some c }))
    priced :
        (s : WorkflowState) (offers : List OfferOption)
        → pricing_calculation s ≡ ok offers
        → Step
            (running pricing_calculation_task s)
            (running await_offer_selection (record s { priced_offers = offers }))
    selected :
        (s : WorkflowState) (id : String) (o : OfferOption) (given : Bool)
        → find_offer s.priced_offers id ≡ ok o
        → Step
            (running await_offer_selection s)
            (running consent_given_check (record s { offer_selection = some (answered given o) }))
    consented :
        (s : WorkflowState)
        → consent s.offer_selection ≡ true
        → Step (running consent_given_check s) (running hard_pull_request s)
    refused :
        (s : WorkflowState)
        → consent s.offer_selection ≡ false
        → Step (running consent_given_check s) (running consent_declined s)
    recorded :
        (s : WorkflowState)
        → Step
            (running consent_declined s)
            (running update_application_status (record s { decision = some declined }))
    hard_pulled :
        (s : WorkflowState) (c : CreditSummary)
        → hard_pull s ≡ ok c
        → Step
            (running hard_pull_request s)
            (running decision_routing_task (record s { hard_pull = some c }))
    decided :
        (s : WorkflowState) (d : Decision)
        → decision_routing s ≡ ok d
        → Step
            (running decision_routing_task s)
            (running update_application_status (record s { decision = some d }))
    updated :
        (s t : WorkflowState) (n : N)
        → (update_status http base_url s n).0 ≡ ok t
        → Step (running update_application_status s) (succeeded s)
    broke : (name : StateName) (s : WorkflowState) → Step (running name s) failed

  pub data Reach (e : Execution) : Execution → Type 0 where
    here : Reach e e
    next : {f g : Execution} → Reach e f → Step f g → Reach e g
