-- ===== src/Tests.antt =====
-- Concrete tenants, policies and requests, on which the development is run.
pub mod Data
pub mod Policies
pub mod Patterns
pub mod Decisions
pub mod Tenants
pub mod Onboarding
pub mod Outbox
pub mod Organizations
pub mod Runs
pub mod Validations
