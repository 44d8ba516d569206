-- ===== src/Organization/Service.antt =====
-- services/organization-agent/internal/application/service.go and events.go, and
-- internal/adapters/authorization/tenant.go: what the operations of the service share.
pub mod AgentRequests
pub mod CompanyRequests
use gereh.Prelude.{
  if◌then◌else◌, Result, ok, err, ◌>>=◌, ◌>>◌, pure, throw, Time, OutboxEvent, ℕ, String, Option,
  none, some, List, string_eq, nat_eq,
}
use gereh.Tenant.Permissions.{Permission}
use gereh.Tenant.Authorization.{tenant_archived, tenant_not_active, AuthorizationDecision}
use gereh.Organization.Model.{AgentStatus, Company, Agent, Error, forbidden, internal}
use gereh.Organization.Store.{OrganizationStore, Tx}
use gereh.Organization.Validation.{Libraries}

pub record Config : Type 0 where
  pub company_event_topic : String
  pub agent_event_topic : String
  pub bootstrap_service_principal_id : String

-- The messages of the events.
pub data Payload : Type 0 where
  company_created : Company → Payload
  company_updated : Company → String → Payload
  company_archived : Company → String → Payload
  agent_created : Agent → Payload
  agent_updated : Agent → String → Payload
  agent_manager_changed : Agent → Option String → String → Payload
  agent_lifecycle_changed : Agent → AgentStatus → String → Payload
  agent_deleted : Agent → String → Time → Payload

pub record EventEnvelope : Type 0 where
  pub event_id : String
  pub event_type : String
  pub event_version : ℕ
  pub tenant_id : String
  pub aggregate_type : String
  pub aggregate_id : String
  pub aggregate_version : ℕ
  pub occurred_at : Time
  pub producer : String
  pub trace_id : String
  pub correlation_id : String
  pub causation_id : String
  pub payload : List ℕ

-- What a request meets: the service's settings, the libraries, the answer of the tenant service to
-- the authorization of an actor in a tenant (an error, a response without a decision, or a
-- decision),
-- new ids, the clock, the metadata of the request and the encoding of messages.
pub record Environment : Type 0 where
  pub config : Config
  pub libraries : Libraries
  pub check_authorization :
      String → String → Permission → Result (Unit {0}) (Option AuthorizationDecision)
  pub new_id : Option String
  pub new_event_id : Option String
  pub now : Time
  pub trace_id : String
  pub correlation_id : String
  pub request_id : String
  pub marshal_payload : Payload → Option (List ℕ)
  pub marshal_envelope : EventEnvelope → Option (List ℕ)

abbrev pub or_internal {ℓ} : {A : Type ℓ} → Option A → Tx A
or_internal none = throw internal
or_internal (some a) = pure a

abbrev pub lift {ℓ} : {A : Type ℓ} → Result Error A → Tx A
lift (ok a) = pure a
lift (err e) = throw e

-- A call of a method of the repository.
abbrev pub called {ℓ} :
    {A : Type ℓ} → Result Error A × OrganizationStore → Result Error (A × OrganizationStore)
called (ok a, s) = ok (a, s)
called (err e, s) = err e

abbrev pub call {ℓ} : {A : Type ℓ} → (OrganizationStore → Result Error A × OrganizationStore) → Tx A
call method s = called (method s)

-- The answer to a decision of the tenant service.
unfoldable pub read_decision :
    Result (Unit {0}) (Option AuthorizationDecision) → Result Error (Unit {0})
read_decision (err u) = err internal
read_decision (ok none) = err internal
read_decision (ok (some decision)) =
    if decision.allowed then ok tt else elim decision.denial_reason [
      | tenant_not_active ↦ err Error.tenant_not_active
      | tenant_archived ↦ err Error.tenant_not_active
      | _ ↦ err forbidden
    ]

module _ (env : Environment) where
  -- `authorizer.Require`
  unfoldable pub authorize : String → String → Permission → Tx (Unit {0})
  unfolding read_decision
  authorize actor_user_id tenant_id permission =
      lift (read_decision (env.check_authorization actor_user_id tenant_id permission))

  unfoldable pub new_outbox_event :
      String → String → String → String → String → String → ℕ → Payload → Time → Tx OutboxEvent
  new_outbox_event topic key event_type tenant_id aggregate_type aggregate_id aggregate_version
        payload now =
      do
        event_id ← or_internal env.new_event_id
        payload_bytes ← or_internal (env.marshal_payload payload)
        envelope_bytes ← or_internal (
            env.marshal_envelope (record {
              event_id = event_id;
              event_type = event_type;
              event_version = 1;
              tenant_id = tenant_id;
              aggregate_type = aggregate_type;
              aggregate_id = aggregate_id;
              aggregate_version = aggregate_version;
              occurred_at = now;
              producer = "organization-agent";
              trace_id = env.trace_id;
              correlation_id = env.correlation_id;
              causation_id = env.request_id;
              payload = payload_bytes;
            }))
        pure (record {
          id = event_id;
          topic = topic;
          key = key;
          envelope = envelope_bytes;
          occurred_at = now;
        })

-- A request first reads, checks and makes the parameters of the method that it then calls.
unfoldable pub perform :
    {A P : Type 0}
    → Tx P
    → (P → OrganizationStore → Result Error A × OrganizationStore)
    → OrganizationStore
    → Result Error A × OrganizationStore
perform prepare method s = elim (prepare s) [
  | ok (params, s') ↦ method params s'
  | err e ↦ (err e, s)
]
