-- ===== src/Organization/Service/CompanyRequests.antt =====
-- services/organization-agent/internal/application/company.go: the requests that change companies.
use gereh.Prelude.{
  if◌then◌else◌, Result, ok, ◌>>=◌, ◌>>◌, pure, throw_if, ℕ, ◌+◌, String, ◌⊎◌, inl, inr, true,
  false, Option, none, some, [], ◌∷◌, string_eq, nat_eq,
}
use gereh.Tenant.Permissions.{
  Permission, permission_company_create, permission_company_update, permission_company_archive,
}
use gereh.Organization.Model.{active, archived, Company, Error, invalid_transition, default_company}
use gereh.Organization.Store.{OrganizationStore, Tx}
use gereh.Organization.Validation.{validate_uuids, bounded_text, normalize_slug}
use gereh.Organization.Companies.{
  CreateCompanyParams, EnsureDefaultCompanyParams, UpdateCompanyParams, is_archived, get_company,
  archive_company,
}
use gereh.Organization.Service.{
  Payload, company_created, company_updated, Environment, or_internal, lift, call, authorize,
  new_outbox_event,
}
use gereh.Organization.Service.AgentRequests.{changed_or}

pub record CreateCompanyInput : Type 0 where
  pub actor_user_id : String
  pub tenant_id : String
  pub slug : String
  pub display_name : String
  pub description : String

pub record UpdateCompanyInput : Type 0 where
  pub actor_user_id : String
  pub tenant_id : String
  pub company_id : String
  pub expected_version : ℕ
  pub display_name : Option String
  pub description : Option String

pub record EnsureDefaultCompanyInput : Type 0 where
  pub tenant_id : String
  pub onboarding_operation_id : String
  pub actor_user_id : String
  pub tenant_display_name : String

module _ (env : Environment) where
  unfoldable pub prepare_create_company : CreateCompanyInput → Tx CreateCompanyParams
  unfolding validate_uuids authorize normalize_slug bounded_text new_outbox_event
  prepare_create_company input = do
    lift (validate_uuids env.libraries (input.actor_user_id ∷ input.tenant_id ∷ []))
    authorize env input.actor_user_id input.tenant_id permission_company_create
    slug ← lift (normalize_slug env.libraries input.slug)
    display_name ← lift (bounded_text input.display_name 1 120)
    description ← lift (bounded_text input.description 0 2000)
    company_id ← or_internal env.new_id
    let company : Company = record {
      tenant_id = input.tenant_id;
      id = company_id;
      slug = slug;
      display_name = display_name;
      description = description;
      status = active;
      is_default = false;
      version = 1;
      created_by_user_id = input.actor_user_id;
      created_at = env.now;
      updated_at = env.now;
      archived_at = none;
    }
    event ←
        new_outbox_event env env.config.company_event_topic company.id "company.created"
          company.tenant_id "company" company.id company.version (company_created company) env.now
    pure (record { actor_user_id = input.actor_user_id; company = company; event = event })

  unfoldable pub read_company : String → String → String → Permission → Tx Company
  unfolding validate_uuids authorize get_company
  read_company actor_user_id tenant_id company_id permission = do
    lift (validate_uuids env.libraries (actor_user_id ∷ tenant_id ∷ company_id ∷ []))
    authorize env actor_user_id tenant_id permission
    call (get_company tenant_id company_id)

  unfoldable pub write_company :
      String → ℕ → String → (Company → Payload) → Company → Tx UpdateCompanyParams
  unfolding new_outbox_event
  write_company actor_user_id expected_version event_type payload changed = do
    let company : Company = record changed { version = changed.version + 1; updated_at = env.now }
    event ←
        new_outbox_event env env.config.company_event_topic company.id event_type company.tenant_id
          "company" company.id company.version (payload company) env.now
    pure (record {
      actor_user_id = actor_user_id;
      company = company;
      expected_version = expected_version;
      event = event;
    })

  unfoldable pub prepare_update_company : UpdateCompanyInput → Tx UpdateCompanyParams
  unfolding read_company bounded_text write_company
  prepare_update_company input = do
    company ←
        read_company input.actor_user_id input.tenant_id input.company_id permission_company_update
    throw_if (is_archived company.status) invalid_transition
    display_name ← changed_or input.display_name company.display_name (λ x. bounded_text x 1 120)
    description ← changed_or input.description company.description (λ x. bounded_text x 0 2000)
    write_company input.actor_user_id input.expected_version "company.updated"
        (λ c. company_updated c input.actor_user_id)
        (record company { display_name = display_name; description = description })

  -- A company that is archived already is the answer, and nothing is written.
  unfoldable pub prepare_archive_company :
      String → String → String → ℕ → Tx (Company ⊎ UpdateCompanyParams)
  unfolding read_company write_company
  prepare_archive_company actor_user_id tenant_id company_id expected_version = do
    company ← read_company actor_user_id tenant_id company_id permission_company_archive
    throw_if company.is_default default_company
    if is_archived company.status then pure (inl company) else do
      params ←
          write_company actor_user_id expected_version "company.archived"
            (λ c. Payload.company_archived c actor_user_id)
            (record company { status = archived; archived_at = some env.now })
      pure (inr params)

  unfoldable pub prepare_ensure_default_company :
      EnsureDefaultCompanyInput → Tx EnsureDefaultCompanyParams
  unfolding validate_uuids bounded_text new_outbox_event
  prepare_ensure_default_company input = do
    lift (
        validate_uuids env.libraries
          (input.tenant_id ∷ input.onboarding_operation_id ∷ input.actor_user_id ∷ []))
    display_name ← lift (bounded_text input.tenant_display_name 1 120)
    company_id ← or_internal env.new_id
    let company : Company = record {
      tenant_id = input.tenant_id;
      id = company_id;
      slug = "main";
      display_name = display_name;
      description = "Default AI organization";
      status = active;
      is_default = true;
      version = 1;
      created_by_user_id = input.actor_user_id;
      created_at = env.now;
      updated_at = env.now;
      archived_at = none;
    }
    event ←
        new_outbox_event env env.config.company_event_topic company.id "company.created"
          company.tenant_id "company" company.id company.version (company_created company) env.now
    pure (record {
      service_principal_id = env.config.bootstrap_service_principal_id;
      onboarding_operation_id = input.onboarding_operation_id;
      company = company;
      event = event;
    })

-- The write that follows the preparation of an archiving.
unfoldable pub archive_or_answer :
    Company ⊎ UpdateCompanyParams → OrganizationStore → Result Error Company × OrganizationStore
unfolding archive_company
archive_or_answer (inl company) s = (ok company, s)
archive_or_answer (inr params) s = archive_company params s
