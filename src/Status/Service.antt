-- ===== src/Status/Service.antt =====
-- workflow-status-service/internal/workflowstatus/service.go. application-management-service and Step
-- Functions are two systems, each with a state of its own.
use psr_pl.Base.{String, Bool, true, false, ◌==◌, if◌then◌else◌}
use psr_pl.Go.{Exec, pure, raise, wrapping, ◌>>=◌, sentinel, unauthorized}
use psr_pl.Status.Model.{WorkflowStatus}
use psr_pl.Status.Translate.{for_running_state, for_application_status, for_error}
use psr_pl.Status.Reader.{ExecutionReader}
use psr_pl.Status.Client.{ApplicationClient}

pub record State (N E : Type 0) : Type 0 where
  pub applications : N
  pub executions : E

module _ {N E A : Type 0} where
  abbrev on_applications : Exec N A → Exec (State N E) A
  on_applications m s = let (r, n) = m s.applications in (r, record s { applications = n })

  abbrev on_executions : Exec E A → Exec (State N E) A
  on_executions m s = let (r, e) = m s.executions in (r, record s { executions = e })

module _ {N E : Type 0} (applications : ApplicationClient N) (executions : ExecutionReader E) where
  abbrev live : String → Exec (State N E) WorkflowStatus
  live application_id = do
    live_status ←
        wrapping "reading current application status"
          (on_applications (applications.current_status application_id))
    pure (for_application_status application_id live_status)

  abbrev running : String → String → Exec (State N E) WorkflowStatus
  running application_id execution_arn = do
    current_state ←
        wrapping "reading current state" (on_executions (executions.current_state execution_arn))
    pure (for_running_state application_id current_state)

  -- The `switch` on the execution's status.
  abbrev translated : String → String → String → Exec (State N E) WorkflowStatus
  translated application_id execution_arn status =
      if status == "SUCCEEDED"
      then live application_id
      else if status == "RUNNING"
      then running application_id execution_arn
      else pure (for_error application_id)

  abbrev found_status : String → Bool → Exec (State N E) WorkflowStatus
  found_status application_id false = raise (sentinel unauthorized)
  found_status application_id true = do
    execution_arn ←
        wrapping "looking up execution"
          (on_applications (applications.execution_arn application_id))
    outcome ←
        wrapping "reading execution outcome" (on_executions (executions.outcome execution_arn))
    translated application_id execution_arn outcome.0

  unfoldable pub get_status : String → String → Exec (State N E) WorkflowStatus
  get_status token application_id = do
    valid ←
        wrapping "validating session"
          (on_applications (applications.validate_session token application_id))
    found_status application_id valid
