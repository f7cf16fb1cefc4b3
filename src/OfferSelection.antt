-- ===== src/OfferSelection.antt =====
-- pricing-orchestration-service/internal/offerselection
pub mod Model
pub mod Repository
pub mod Service
pub mod Resumer
pub mod Confirm
pub mod Interleaved
pub mod Find
pub mod Sessions
pub mod Handler
pub mod Server
pub mod Main
pub mod Framed
pub mod Access
pub mod Tests
