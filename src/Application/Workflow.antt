-- ===== src/Application/Workflow.antt =====
-- application-management-service/internal/application/workflow.go. The answers of `json.Marshal` and
-- of Step Functions, and the UUID, are parameters.
use Prim.Native.String.{◌++◌ as concat, slice}
use psr_pl.Base.{String}
use psr_pl.Go.{Result, Exec, lift, wrapping, ◌>>=◌}
use psr_pl.Go.Int64.{ℤ}
use psr_pl.Application.Model.{Address}

pub record WorkflowInput : Type 0 where
  pub application_id : String
  pub first_name : String
  pub last_name : String
  pub date_of_birth : String
  pub ssn : String
  pub address : Address
  pub requested_amount_cents : ℤ
  pub requested_term_months : ℤ
  pub annual_income_cents : ℤ
  pub monthly_obligations_cents : ℤ
  pub request_id : String

-- The Go interface `WorkflowStarter`: the answer is the execution's ARN.
pub record WorkflowStarter (W : Type 0) : Type 0 where
  pub start : WorkflowInput → Exec W String

-- `sfn.Client`: the state machine's ARN, the execution's name, its input.
pub record Sfn (W : Type 0) : Type 0 where
  pub start_execution : String → String → String → Exec W String

abbrev pub execution_name : String → String → String
execution_name application_id uuid =
    concat "app-" (concat application_id (concat "-" (slice uuid 0 8)))

module _ {W : Type 0} (client : Sfn W) (marshal : WorkflowInput → Result String)
    (state_machine_arn uuid : String) where
  unfoldable pub sfn_workflow_starter : WorkflowStarter W
  sfn_workflow_starter = record {
    start = λ input. do
      payload ← wrapping "encoding workflow input" (lift (marshal input))
      wrapping "starting execution" (
          client.start_execution state_machine_arn (execution_name input.application_id uuid)
            payload);
  }
