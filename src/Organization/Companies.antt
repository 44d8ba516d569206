-- ===== src/Organization/Companies.antt =====
-- services/organization-agent/internal/adapters/postgres/company.go, with the parameter records of
-- services/organization-agent/internal/ports/repository.go. Each method is one transaction; the
-- advisory lock of the default company leaves no trace in the model.
pub mod Inversion
use gereh.Prelude.{
  if◌then◌else◌, is_some, keep_if, all_of, any_of, is_empty, find_row, update_where, Result, ok,
  err, ◌>>=◌, ◌>>◌, pure, throw_if, transact, OutboxEvent, ◌==◌, ℕ, ◌+◌, String, Bool, true, false,
  ◌&&◌, ◌||◌, not, Option, none, some, [], ◌∷◌, ◌++◌, string_eq, nat_eq,
}
use gereh.Organization.Model.{
  CompanyStatus, archived, is_active, Company, Error, invalid_argument, conflict,
  company_has_agents,
}
use gereh.Organization.Store.{
  BootstrapRequest, OrganizationStore, Tx, is_company, is_live, insert_outbox, lock_company,
  query_company, reject_version_or_missing,
}

pub record CreateCompanyParams : Type 0 where
  pub actor_user_id : String
  pub company : Company
  pub event : OutboxEvent

pub record EnsureDefaultCompanyParams : Type 0 where
  pub service_principal_id : String
  pub onboarding_operation_id : String
  pub company : Company
  pub event : OutboxEvent

pub record UpdateCompanyParams : Type 0 where
  pub actor_user_id : String
  pub company : Company
  pub expected_version : ℕ
  pub event : OutboxEvent

abbrev pub is_archived : CompanyStatus → Bool
is_archived archived = true
is_archived _ = false

-- The checks of organization_companies: active without a time of archiving, or archived with one.
abbrev pub passes_company_checks : Company → Bool
passes_company_checks row =
    (is_active row.status && not (is_some row.archived_at))
    || (is_archived row.status && is_some row.archived_at)

abbrev pub is_active_default : String → Company → Bool
is_active_default tenant_id row =
    row.tenant_id == tenant_id && (row.is_default && is_active row.status)

-- The unique keys: the id and the slug in the tenant, and one active default company.
abbrev pub clashes_with_company : Company → Company → Bool
clashes_with_company company row =
    is_company company.tenant_id company.id row
    || ((row.tenant_id == company.tenant_id && row.slug == company.slug)
        || (is_active_default company.tenant_id company && is_active_default company.tenant_id row))

-- INSERT INTO organization_companies
unfoldable pub insert_company : Company → Tx (Unit {0})
insert_company company s =
    if not (passes_company_checks company)
    then err invalid_argument
    else elim (find_row (clashes_with_company company) s.companies) [
      | some _ ↦ err conflict
      | none ↦ ok (tt, record s { companies = s.companies ++ company ∷ [] })
    ]

unfoldable pub create_company :
    CreateCompanyParams → OrganizationStore → Result Error Company × OrganizationStore
unfolding insert_company insert_outbox
create_company params = transact do
  insert_company params.company
  insert_outbox params.company.tenant_id params.event
  pure params.company

abbrev pub is_request : String → BootstrapRequest → Bool
is_request operation_id row = row.onboarding_operation_id == operation_id

abbrev pub is_request_of : String → BootstrapRequest → Bool
is_request_of tenant_id row = row.tenant_id == tenant_id

-- INSERT INTO organization_bootstrap_requests … ON CONFLICT (onboarding_operation_id) DO NOTHING:
-- a clash of the tenant is still an error.
unfoldable pub record_bootstrap_request : EnsureDefaultCompanyParams → String → Tx (Unit {0})
record_bootstrap_request params company_id s =
    elim (find_row (is_request params.onboarding_operation_id) s.bootstrap_requests) [
      | some _ ↦ ok (tt, s)
      | none ↦ elim (find_row (is_request_of params.company.tenant_id) s.bootstrap_requests) [
        | some _ ↦ err conflict
        | none ↦ ok (
          tt,
          record s {
            bootstrap_requests =
                s.bootstrap_requests
                ++ record {
                  onboarding_operation_id = params.onboarding_operation_id;
                  tenant_id = params.company.tenant_id;
                  company_id = company_id;
                  actor_user_id = params.company.created_by_user_id;
                  created_at = params.company.created_at;
                }
                  ∷ [];
          },
        )
      ]
    ]

-- The company that the same onboarding operation has been given.
unfoldable pub bootstrapped_company : String → String → OrganizationStore → Option String
bootstrapped_company operation_id tenant_id s =
    elim (find_row (λ row. is_request operation_id row && is_request_of tenant_id row)
      s.bootstrap_requests) [ none ↦ none | some row ↦ some row.company_id ]

-- After the lock: the tenant's active default company is taken, or made.
unfoldable pub take_default_company : Option Company → EnsureDefaultCompanyParams → Tx Company
unfolding record_bootstrap_request query_company insert_company insert_outbox
take_default_company (some existing) params = do
  record_bootstrap_request params existing.id
  query_company params.company.tenant_id existing.id
take_default_company none params = do
  insert_company params.company
  record_bootstrap_request params params.company.id
  insert_outbox params.company.tenant_id params.event
  pure params.company

unfoldable pub ensure_from : Option String → EnsureDefaultCompanyParams → Tx Company
unfolding take_default_company query_company
ensure_from (some company_id) params s = query_company params.company.tenant_id company_id s
ensure_from none params s =
    take_default_company (find_row (is_active_default params.company.tenant_id) s.companies) params
      s

unfoldable pub ensure_default_company :
    EnsureDefaultCompanyParams → OrganizationStore → Result Error Company × OrganizationStore
unfolding ensure_from bootstrapped_company
ensure_default_company params = transact λ s.
    ensure_from (bootstrapped_company params.onboarding_operation_id params.company.tenant_id s)
      params s

unfoldable pub get_company :
    String → String → OrganizationStore → Result Error Company × OrganizationStore
unfolding query_company
get_company tenant_id company_id = transact (query_company tenant_id company_id)

-- UPDATE organization_companies … WHERE tenant_id AND company_id AND version; if no row was
-- affected, the update is rejected.
unfoldable pub update_company_row : (Company → Company) → UpdateCompanyParams → Tx (Unit {0})
unfolding reject_version_or_missing
update_company_row change params s =
    let selected = λ (row : Company).
      is_company params.company.tenant_id params.company.id row
      && row.version == params.expected_version in
    let affected = keep_if selected s.companies in
    if is_empty affected
    then reject_version_or_missing params.company.tenant_id params.company.id s
    else if all_of (λ row. passes_company_checks (change row)) affected
    then ok (tt, record s { companies = update_where selected change s.companies })
    else err invalid_argument

abbrev pub with_description : Company → Company → Company
with_description new row = record row {
  display_name = new.display_name;
  description = new.description;
  version = row.version + 1;
  updated_at = new.updated_at;
}

abbrev pub with_company_archived : Company → Company → Company
with_company_archived new row = record row {
  status = archived;
  archived_at = new.archived_at;
  version = row.version + 1;
  updated_at = new.updated_at;
}

-- `updateCompany`
unfoldable pub update_company :
    UpdateCompanyParams → OrganizationStore → Result Error Company × OrganizationStore
unfolding update_company_row insert_outbox
update_company params = transact do
  update_company_row (with_description params.company) params
  insert_outbox params.company.tenant_id params.event
  pure params.company

unfoldable pub archive_company :
    UpdateCompanyParams → OrganizationStore → Result Error Company × OrganizationStore
unfolding lock_company update_company_row insert_outbox
archive_company params = transact do
  lock_company params.company.tenant_id params.company.id
  λ s.
      throw_if (any_of (is_live params.company.tenant_id params.company.id) s.agents)
        company_has_agents s
  update_company_row (with_company_archived params.company) params
  insert_outbox params.company.tenant_id params.event
  pure params.company
