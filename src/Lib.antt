-- ===== src/Lib.antt =====
-- A verification development for the core of the gereh control plane: who may do what in a tenant,
-- what a policy says of an action, and the companies and agents of a tenant.
--
-- The tenant service (services/tenant) keeps tenants, their members, their entitlements and the
-- operation that onboards each of them, in tables that its repository changes in transactions.
--   Tenant/Model           internal/domain/models.go, onboarding.go, errors.go: the rows
--   Tenant/Permissions     internal/domain/authorization.go: permissions and role tables
--   Tenant/Authorization   internal/domain/authorization.go, policy.go: decisions, the hierarchy
--   Tenant/Store           internal/adapters/postgres/repository.go: tables, transactions, queries
--   Tenant/Members         internal/adapters/postgres/membership.go
--   Tenant/Tenants         internal/adapters/postgres/tenant.go
--   Tenant/Onboarding      internal/adapters/postgres/onboarding.go
--   Tenant/Outbox          internal/adapters/postgres/outbox.go, internal/adapters/outbox/relay.go
--   Tenant/Requests        internal/ports/repository.go: all changes as requests, and sequences
-- A table is the list of its rows in the order of insertion. A method of the repository is a
-- function from its parameters and the store to a result and the store after it: `transact` keeps
-- the old store on an error, as the rollback does. Transactions are taken one after another, which
-- is what the code uses row locks for; how the statements of two transactions interleave is not
-- modelled. An insertion refuses a clash with a unique index; an update or deletion says how many
-- rows its WHERE clause chose. Row security is modelled for the operations table, where a query
-- names no tenant; elsewhere each statement names it. The events' factories are functions in the
-- parameters, as in Go. The requests write the outbox as the events in order; the relay sees the
-- same table with the columns that the database fills. In a batch of the relay the broker, the
-- decoding of envelopes, the clock, the locks of other claims and whether an update reaches the
-- database are a parameter, a record of functions, of which the theorems assume only what they
-- name. What the broker has acknowledged is part of the relay's state: the call of the producer
-- adds to it when the broker accepts, and the mark of a row, a later step, does not.
--
-- The policy service (services/policy-approval) decides an action by all active policies.
--   Policy/Model           internal/domain/models.go
--   Policy/Constraints     internal/engine/constraints.go
--   Policy/Matcher         internal/engine/matcher.go
--   Policy/Conditions      internal/engine/evaluator.go: what a condition is evaluated with
--   Policy/Evaluator       internal/engine/evaluator.go
-- The evaluation of a condition belongs to the CEL library, and is a parameter: a function of the
-- cache key, the text and the variables that returns a truth value or an error. Nothing is assumed
-- of it.
--
-- The organization service (services/organization-agent) keeps the companies of a tenant, their
-- agents and who reports to whom.
--   Organization/Configuration, Model   internal/domain/models.go, errors.go: the rows
--   Organization/Store        internal/adapters/postgres: the tables and the shared statements
--   Organization/Hierarchy    internal/adapters/postgres/hierarchy.go
--   Organization/Agents       internal/adapters/postgres/agent.go
--   Organization/Companies    internal/adapters/postgres/company.go
--   Organization/Validation   internal/application/validation.go, pagination.go, agent.go
--   Organization/Service      internal/application/service.go, events.go, agent.go, company.go, and
--                             internal/adapters/authorization/tenant.go
--   Organization/Commands     internal/ports/repository.go: all changes as commands, and sequences
--   Organization/Requests     internal/application: all changes as requests, and runs of them
-- The walk up the hierarchy is given as much fuel as the table has rows, and each step visits a row
-- that was not visited before, so that it is never cut short. A request of the service is prepared
-- from what it reads, and its write is a transaction of its own; in a run, other requests may write
-- in between. The parsing of UUIDs, the mapping to lower case, the encodings, the clock, new ids and
-- the answer of the tenant service are a parameter, of which nothing is assumed.
--
-- Child modules hold proofs: an Inversion module says what a transaction that succeeded has done,
-- and Tenant/Requests/Effects and Organization/Commands/Effects sum these up for every request.
-- Prelude holds what the parts share: tests, tables with find, count, update and delete,
-- transactions, results, signed integers and texts. Tests holds concrete tenants, policies,
-- companies and runs on which the code and the theorems are evaluated.
--
-- All loops but the walk up the hierarchy are over lists and by structural recursion, so that no
-- fuel is needed. Versions are natural numbers; those that the code increments are taken not to
-- reach the bound of a 64-bit integer. Money and priorities are signed integers that are only
-- compared.
--
-- Not modelled: failures of the database connection other than those that the relay meets, the
-- encodings as JSON, the lists with their page cursors, the loop of the relay around its batches,
-- the application services of tenants and policies, the gRPC and HTTP layers, the limits on the size
-- of a CEL expression, and the other services of the repository.
pub mod Prelude
pub mod Tenant
pub mod Policy
pub mod Organization
pub mod Tests
