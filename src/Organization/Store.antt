-- ===== src/Organization/Store.antt =====
-- services/organization-agent/internal/adapters/postgres: the tables of the service, and the
-- statements that its methods share (repository.go, hierarchy.go, agent.go, company.go). Of the
-- tables' constraints, the keys, the references to managers and the checks of states are modelled;
-- the bounds of texts and the lists of admitted values are what the service has validated before.
use gereh.Prelude.{
  find_row, ok, err, Transaction, row_or, Time, OutboxEvent, ◌==◌, ℕ, String, Bool, ◌&&◌, not, none,
  some, List, [], ◌∷◌, ◌++◌, string_eq, nat_eq,
}
use gereh.Organization.Model.{
  is_active, is_deleted, Company, Agent, AgentRevision, Error, not_found, conflict,
  version_conflict,
}

pub record BootstrapRequest : Type 0 where
  pub onboarding_operation_id : String
  pub tenant_id : String
  pub company_id : String
  pub actor_user_id : String
  pub created_at : Time

pub record OrganizationStore : Type 0 where
  pub companies : List Company
  pub agents : List Agent
  pub revisions : List AgentRevision
  pub bootstrap_requests : List BootstrapRequest
  pub outbox : List (String × OutboxEvent)

-- The work inside a transaction.
abbrev pub Tx {ℓ} : Type ℓ → Type ℓ
Tx = Transaction Error OrganizationStore

abbrev pub is_company : String → String → Company → Bool
is_company tenant_id company_id row = row.tenant_id == tenant_id && row.id == company_id

abbrev pub is_agent : String → String → Agent → Bool
is_agent tenant_id agent_id row = row.tenant_id == tenant_id && row.id == agent_id

-- An agent of a company that is not deleted.
abbrev pub is_live : String → String → Agent → Bool
is_live tenant_id company_id row =
    row.tenant_id == tenant_id && (row.company_id == company_id && not (is_deleted row.status))

abbrev pub is_revision : String → String → ℕ → AgentRevision → Bool
is_revision tenant_id agent_id version row =
    row.tenant_id == tenant_id && (row.agent_id == agent_id && row.version == version)

-- The key of organization_outbox is made by the database; event ids are unique.
unfoldable pub insert_outbox : String → OutboxEvent → Tx (Unit {0})
insert_outbox tenant_id event s =
    elim (find_row (λ (r : String × OutboxEvent). r.1.id == event.id) s.outbox) [
      | some _ ↦ err conflict
      | none ↦ ok (tt, record s { outbox = s.outbox ++ (tenant_id, event) ∷ [] })
    ]

unfoldable pub lock_company : String → String → Tx Company
lock_company tenant_id company_id s =
    row_or not_found
      (find_row (λ row. is_company tenant_id company_id row && is_active row.status) s.companies) s

unfoldable pub query_company : String → String → Tx Company
query_company tenant_id company_id s =
    row_or not_found (find_row (is_company tenant_id company_id) s.companies) s

unfoldable pub query_agent : String → String → Tx Agent
query_agent tenant_id agent_id s =
    row_or not_found (find_row (is_agent tenant_id agent_id) s.agents) s

-- What an update that affected no row answers: the row is missing, or at another version.
unfoldable pub reject_agent_version_or_missing {ℓ} : {A : Type ℓ} → String → String → Tx A
reject_agent_version_or_missing tenant_id agent_id s =
    elim (find_row (is_agent tenant_id agent_id) s.agents) [
      | some _ ↦ err version_conflict
      | none ↦ err not_found
    ]

unfoldable pub reject_version_or_missing {ℓ} : {A : Type ℓ} → String → String → Tx A
reject_version_or_missing tenant_id company_id s =
    elim (find_row (is_company tenant_id company_id) s.companies) [
      | some _ ↦ err version_conflict
      | none ↦ err not_found
    ]

-- INSERT INTO organization_agent_revisions: one row for a version of an agent.
unfoldable pub insert_agent_revision : Agent → String → String → Time → Tx (Unit {0})
insert_agent_revision agent change_kind actor_user_id occurred_at s =
    elim (find_row (is_revision agent.tenant_id agent.id agent.version) s.revisions) [
      | some _ ↦ err conflict
      | none ↦ ok (
        tt,
        record s {
          revisions =
              s.revisions
              ++ record {
                tenant_id = agent.tenant_id;
                agent_id = agent.id;
                version = agent.version;
                change_kind = change_kind;
                snapshot = agent;
                actor_user_id = actor_user_id;
                occurred_at = occurred_at;
              }
                ∷ [];
        },
      )
    ]
