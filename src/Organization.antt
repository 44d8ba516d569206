-- ===== src/Organization.antt =====
-- services/organization-agent: companies, their agents and the reporting hierarchy.
pub mod Configuration
pub mod Model
pub mod Store
pub mod Hierarchy
pub mod Agents
pub mod Companies
pub mod Validation
pub mod Service
pub mod Commands
pub mod Requests
