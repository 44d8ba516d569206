-- ===== src/Tenant.antt =====
-- services/tenant: the tenant service.
pub mod Model
pub mod Permissions
pub mod Authorization
pub mod Store
pub mod Members
pub mod Tenants
pub mod Onboarding
pub mod Outbox
pub mod Requests
