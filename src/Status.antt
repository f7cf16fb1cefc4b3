-- ===== src/Status.antt =====
-- workflow-status-service/internal/workflowstatus
pub mod Model
pub mod Translate
pub mod Reader
pub mod Client
pub mod Service
pub mod Handler
pub mod Server
pub mod Main
pub mod Framed
pub mod Reported
mod Tests
