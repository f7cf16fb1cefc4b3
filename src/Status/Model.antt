-- ===== src/Status/Model.antt =====
-- workflow-status-service/internal/workflowstatus/model.go
use psr_pl.Base.{String, List}

abbrev pub processing : String
processing = "PROCESSING"

abbrev pub soft_pull_pending : String
soft_pull_pending = "SOFT_PULL_PENDING"

abbrev pub pricing_pending : String
pricing_pending = "PRICING_PENDING"

abbrev pub offer_pending : String
offer_pending = "OFFER_PENDING"

abbrev pub hard_pull_pending : String
hard_pull_pending = "HARD_PULL_PENDING"

abbrev pub decision_pending : String
decision_pending = "DECISION_PENDING"

abbrev pub error : String
error = "ERROR"

pub record NextStep : Type 0 where
  pub action : String
  pub description : String

pub record WorkflowStatus : Type 0 where
  pub application_id : String
  pub status : String
  pub current_step : String
  pub next_steps : List NextStep
