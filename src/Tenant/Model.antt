-- ===== src/Tenant/Model.antt =====
-- services/tenant/internal/domain/models.go, onboarding.go and errors.go: the rows that the
-- tenant service keeps, and its errors.
use gereh.Prelude.{ℤ, Time, ℕ, String, Bool, true, false, Option, List, string_eq, nat_eq}
use gereh.Tenant.Permissions.{Permission}

-- The Go types are strings: `other` holds a text that is none of the named values.
pub data Status : Type 0 where
  provisioning active provisioning_failed archived : Status
  other : String → Status

pub data Role : Type 0 where
  owner admin member viewer : Role
  other : String → Role

abbrev pub is_active : Status → Bool
is_active active = true
is_active _ = false

abbrev pub is_archived : Status → Bool
is_archived archived = true
is_archived _ = false

abbrev pub is_owner : Role → Bool
is_owner owner = true
is_owner _ = false

-- Versions are positive int64 values; the code compares them for equality and copies them.
pub record Tenant : Type 0 where
  pub id : String
  pub slug : String
  pub display_name : String
  pub status : Status
  pub region : String
  pub retention_days : ℕ
  pub version : ℕ
  pub created_by_user_id : String
  pub created_at : Time
  pub updated_at : Time
  pub archived_at : Option Time

pub record Membership : Type 0 where
  pub tenant_id : String
  pub user_id : String
  pub role : Role
  pub version : ℕ
  pub created_by : String
  pub created_at : Time
  pub updated_at : Time

pub record Entitlements : Type 0 where
  pub tenant_id : String
  pub plan_key : String
  pub features : List (String × Bool)
  pub limits : List (String × ℤ)
  pub version : ℕ
  pub updated_at : Time

-- The repository fills all but the permissions, which the application adds.
pub record TenantContext : Type 0 where
  pub tenant : Tenant
  pub membership : Membership
  pub entitlements : Entitlements
  pub permissions : List Permission

-- The Go type is a string: `other` holds a text that is none of the named values.
pub data OperationState : Type 0 where
  pending running succeeded failed canceled : OperationState
  other : String → OperationState

-- The details are an arbitrary JSON object, here its encoding.
pub record OperationError : Type 0 where
  pub code : String
  pub message : String
  pub retryable : Bool
  pub details : String

pub record Operation : Type 0 where
  pub id : String
  pub tenant_id : String
  pub actor_user_id : String
  pub request_id : String
  pub state : OperationState
  pub resource_name : String
  pub workflow_id : String
  pub workflow_run_id : String
  pub error : Option OperationError
  pub metadata : List (String × String)
  pub version : ℕ
  pub created_at : Time
  pub updated_at : Time
  pub started_at : Option Time
  pub completed_at : Option Time

pub record CreateTenantResult : Type 0 where
  pub context : TenantContext
  pub operation : Operation

pub data Error : Type 0 where
  invalid_argument not_found forbidden conflict version_conflict last_owner archived_tenant : Error
  tenant_not_active invalid_operation_transition operation_already_completed : Error
