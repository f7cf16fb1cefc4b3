-- ===== src/Platform/Tests.antt =====
-- Runs over all the services: a network on which application-management-service answers from a table in
-- memory.
mod Fixtures
mod Journeys
mod Serving
mod Presenting
mod Inviting
mod Spending
mod Racing
mod Workflows
mod Ending
mod Admitted
