-- ===== src/Application.antt =====
-- application-management-service/internal/application: intake and submission of applications, the
-- self-service login, and the record that the other services advance.
pub mod Model
pub mod Validator
pub mod Suffix
pub mod Repository
pub mod Sessions
pub mod Workflow
pub mod OfferLog
pub mod Service
pub mod Submission
pub mod Failures
pub mod Issued
pub mod Interleaved
pub mod Login
pub mod Lifecycle
pub mod Handler
pub mod Server
pub mod Main
pub mod Framed
pub mod Configured
pub mod Running
pub mod Started
pub mod Serving
pub mod Reading
pub mod Replies
pub mod Granted
pub mod Tests
