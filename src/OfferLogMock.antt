-- ===== src/OfferLogMock.antt =====
-- application-management-service/cmd/offerlog-mock: the stand-in for OfferLog.
pub mod Store
pub mod Paired
pub mod Server
mod Tests
