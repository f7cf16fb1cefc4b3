-- ===== src/OfferSelection/Resumer.antt =====
-- pricing-orchestration-service/internal/offerselection/workflowcallback.go. `send_task_success` is the
-- call of Step Functions, and `marshal` the JSON of the consent and the selected offer.
use psr_pl.Base.{String, Bool}
use psr_pl.Go.{Result, Exec, lift, wrapping, ◌>>=◌}
use psr_pl.Pricing.Model.{OfferOption}
use psr_pl.OfferSelection.Service.{WorkflowResumer}

module _ {W : Type 0} (send_task_success : String → String → Exec W (Unit {0}))
    (marshal : Bool → OfferOption → Result String) where
  unfoldable pub sfn_workflow_resumer : WorkflowResumer W
  sfn_workflow_resumer = record {
    resume = λ task_token consent_given selected. do
      output ← wrapping "encoding resume output" (lift (marshal consent_given selected))
      wrapping "sending task success" (send_task_success task_token output);
  }
