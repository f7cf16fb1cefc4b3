-- ===== src/Acceptance.antt =====
-- offer-acceptance-service/internal/offeracceptance
pub mod Model
pub mod Repository
pub mod Service
pub mod Esign
pub mod Stranded
pub mod Handler
pub mod Server
pub mod Main
pub mod Framed
pub mod Tests
