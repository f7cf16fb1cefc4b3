-- ===== src/Status/Reader.antt =====
-- workflow-status-service/internal/workflowstatus/stepfunctions.go. The Step Functions client is a
-- parameter, on the service in state `E`; `decode` is the JSON decoder's answer for the field
-- `decision.outcome` of an execution's output.
use psr_pl.Base.{ℕ, String, Bool, true, Option, none, some, List, [], ◌∷◌, ◌==◌, if◌then◌else◌}
use psr_pl.Go.{Result, Exec, pure, lift, wrapping, ◌>>=◌}

pub record HistoryEvent : Type 0 where
  pub event_type : String
  -- the name in `StateEnteredEventDetails`, if there are such details
  pub state_entered : Option String

pub record Execution : Type 0 where
  pub status : String
  pub output : Option String

pub record SfnClient (E : Type 0) : Type 0 where
  -- execution, reverse order, most results
  pub get_execution_history : String → Bool → ℕ → Exec E (List HistoryEvent)
  pub describe_execution : String → Exec E Execution

-- The Go interface `ExecutionReader`.
pub record ExecutionReader (E : Type 0) : Type 0 where
  pub current_state : String → Exec E String
  pub outcome : String → Exec E (String × String)

abbrev pub task_state_entered : String
task_state_entered = "TaskStateEntered"

abbrev succeeded : String
succeeded = "SUCCEEDED"

-- The name of the first task that the events enter.
abbrev entered_name : HistoryEvent → Option String
entered_name event = if event.event_type == task_state_entered then event.state_entered else none

unfoldable pub first_task : List HistoryEvent → String
first_task [] = ""
first_task (event ∷ events) = elim (entered_name event) [
  | some name ↦ name
  | none ↦ first_task events
]

module _ {E : Type 0} (client : SfnClient E) (decode : String → Result String) where
  abbrev read_decision : String → Option String → Exec E (String × String)
  read_decision status none = pure (status, "")
  read_decision status (some output) = do
    outcome ← wrapping "parsing execution output" (lift (decode output))
    pure (status, outcome)

  abbrev read_output : Execution → Exec E (String × String)
  read_output out =
      if out.status == succeeded then read_decision out.status out.output else pure (out.status, "")

  unfoldable pub sfn_reader : ExecutionReader E
  sfn_reader = record {
    current_state = λ arn. do
      events ← wrapping "getting execution history" (client.get_execution_history arn true 20)
      pure (first_task events);
    outcome = λ arn. do
      out ← wrapping "describing execution" (client.describe_execution arn)
      read_output out;
  }
