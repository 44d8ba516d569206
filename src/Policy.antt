-- ===== src/Policy.antt =====
-- services/policy-approval: the policy decision service.
pub mod Model
pub mod Constraints
pub mod Matcher
pub mod Conditions
pub mod Evaluator
