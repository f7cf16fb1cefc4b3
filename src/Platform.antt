-- ===== src/Platform.antt =====
-- The services put together: the calls between them reach the routes and handlers of
-- application-management-service.
mod Network
mod Dispatch
mod Calls
mod Lookups
mod Lifecycle
mod Admission
mod Report
mod Journey
mod Decided
mod Presented
mod InvitationPaths
mod Invitations
mod Spent
mod Raced
mod Tests
mod Routes
