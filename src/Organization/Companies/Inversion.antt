-- ===== src/Organization/Companies/Inversion.antt =====
-- What an operation on a company that succeeded has checked, and the store that it leaves.
use gereh.Prelude.{
  Option-cases, is_some, keep_if, all_of, any_of, find_row, update_where, ok, ◌==◌, ◌≡◌, ◌⊎◌, inl,
  inr, true, false, ◌&&◌, none, some, [], ◌∷◌, ◌++◌, arith, string_eq, nat_eq,
}
use gereh.Organization.Model.{Company}
use gereh.Organization.Store.{
  OrganizationStore, is_company, is_live, insert_outbox, lock_company, query_company,
  reject_version_or_missing,
}
use gereh.Organization.Agents.Inversion.{is_open}
use gereh.Organization.Companies.{
  CreateCompanyParams, EnsureDefaultCompanyParams, UpdateCompanyParams, passes_company_checks,
  is_active_default, clashes_with_company, insert_company, create_company, record_bootstrap_request,
  bootstrapped_company, take_default_company, ensure_from, ensure_default_company,
  update_company_row, with_description, with_company_archived, update_company, archive_company,
}

-- A company may be added.
pub record AddedCompany (company : Company) (s s' : OrganizationStore) : Type 0 where
  pub checked : passes_company_checks company ≡ true
  pub fresh : find_row (clashes_with_company company) s.companies ≡ none
  pub companies_after : s'.companies ≡ s.companies ++ company ∷ []
  pub agents_after : s'.agents ≡ s.agents
  pub revisions_after : s'.revisions ≡ s.revisions

pub create_company-inv :
    (params : CreateCompanyParams) (s s' : OrganizationStore) (c : Company)
    → create_company params s ≡ (ok c, s')
    → AddedCompany params.company s s'
unfolding create_company insert_company insert_outbox
create_company-inv params s s' c h = ground (arith, h)

-- The tables of companies and agents as they were.
pub record SameCompanies (s s' : OrganizationStore) : Type 0 where
  pub companies_after : s'.companies ≡ s.companies
  pub agents_after : s'.agents ≡ s.agents
  pub revisions_after : s'.revisions ≡ s.revisions

take_none-inv :
    (params : EnsureDefaultCompanyParams) (s s' : OrganizationStore) (c : Company)
    → take_default_company none params s ≡ ok (c, s')
    → AddedCompany params.company s s'
unfolding take_default_company insert_company record_bootstrap_request insert_outbox
take_none-inv params s s' c h = ground (arith, h)

take_some-inv :
    (existing : Company) (params : EnsureDefaultCompanyParams) (s s' : OrganizationStore)
    (c : Company)
    → take_default_company (some existing) params s ≡ ok (c, s')
    → SameCompanies s s'
unfolding take_default_company record_bootstrap_request query_company
take_some-inv existing params s s' c h = ground (arith, h)

pub ensure_default_company-inv :
    (params : EnsureDefaultCompanyParams) (s s' : OrganizationStore) (c : Company)
    → ensure_default_company params s ≡ (ok c, s')
    → AddedCompany params.company s s' ⊎ SameCompanies s s'
unfolding ensure_default_company ensure_from query_company
ensure_default_company-inv params s s' c h =
    elim (Option-cases
      (bootstrapped_company params.onboarding_operation_id params.company.tenant_id s)) [
        | inr (id, e) ↦ inr (ground (arith, e, h))
        | inl e ↦
            elim (Option-cases
              (find_row (is_active_default params.company.tenant_id) s.companies)) [
                | inl e2 ↦ inl (take_none-inv params s s' c (ground (arith, e, e2, h)))
                | inr (x, e2) ↦ inr (take_some-inv x params s s' c (ground (arith, e, e2, h)))
              ]
      ]

pub record ChangedCompany (change : Company → Company) (params : UpdateCompanyParams)
    (s s' : OrganizationStore) : Type 0 where
  pub checked :
      all_of
        (λ row. passes_company_checks (change row))
        (keep_if
          (λ row.
            is_company params.company.tenant_id params.company.id row
            && row.version == params.expected_version)
          s.companies)
      ≡ true
  pub companies_after :
      s'.companies
      ≡ update_where
          (λ row.
            is_company params.company.tenant_id params.company.id row
            && row.version == params.expected_version)
          change
          s.companies
  pub agents_after : s'.agents ≡ s.agents
  pub revisions_after : s'.revisions ≡ s.revisions

pub update_company-inv :
    (params : UpdateCompanyParams) (s s' : OrganizationStore) (c : Company)
    → update_company params s ≡ (ok c, s')
    → ChangedCompany (with_description params.company) params s s'
unfolding update_company update_company_row reject_version_or_missing insert_outbox
update_company-inv params s s' c h = ground (arith, h)

pub archive_company-inv :
    (params : UpdateCompanyParams) (s s' : OrganizationStore) (c : Company)
    → archive_company params s ≡ (ok c, s')
    → (any_of (is_live params.company.tenant_id params.company.id) s.agents ≡ false)
      × (is_some (find_row (is_open params.company.tenant_id params.company.id) s.companies) ≡ true)
      × ChangedCompany (with_company_archived params.company) params s s'
unfolding archive_company lock_company update_company_row reject_version_or_missing insert_outbox
archive_company-inv params s s' c h = (ground (arith, h), ground (arith, h), ground (arith, h))
