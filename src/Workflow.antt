-- ===== src/Workflow.antt =====
-- The pricing workflow: the Lambda and Fargate steps of pricing-orchestration-service/cmd, and the
-- state machine that calls them.
pub mod Steps
pub mod Effects
pub mod Machine
pub mod Invariant
pub mod Outcome
pub mod Counted
pub mod Progress
pub mod Names
pub mod Tests
