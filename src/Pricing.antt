-- ===== src/Pricing.antt =====
-- pricing-orchestration-service/internal/pricing: what is offered, and what is decided.
pub mod Model
pub mod Options
pub mod Decision
pub mod Bureau
pub mod Terms
pub mod Capacity
mod Tests
