-- ===== src/Organization/Hierarchy.antt =====
-- services/organization-agent/internal/adapters/postgres/hierarchy.go: the walk up the reporting
-- lines that looks for a cycle. A recursive query visits each row once; the fuel is the number of
-- rows.
pub mod Chain
pub mod Forest
pub mod View
pub mod Kept
use gereh.Prelude.{
  length, find_row, ◌==◌, contains, ℕ, zero, suc, String, Bool, true, false, ◌&&◌, Option, none,
  some, List, [], ◌∷◌, string_eq, nat_eq,
}
use gereh.Organization.Model.{Agent}
use gereh.Organization.Store.{is_live}

abbrev pub names : String → Agent → Bool
names agent_id row = row.id == agent_id

module _ (tenant_id company_id : String) (agents : List Agent) where
  -- The row of an agent that takes part in the hierarchy.
  unfoldable pub live_agent : String → Option Agent
  live_agent agent_id =
      find_row (λ row. is_live tenant_id company_id row && names agent_id row) agents

  abbrev pub live_manager : Option Agent → Option Agent
  live_manager none = none
  live_manager (some row) = elim row.manager_agent_id [
    | none ↦ none
    | some manager_id ↦ live_agent manager_id
  ]

  -- The join of the recursive query: the manager of an agent, if both take part.
  unfoldable pub manager_of : String → Option String
  unfolding live_agent
  manager_of agent_id = elim (live_manager (live_agent agent_id)) [
    | none ↦ none
    | some row ↦ some row.id
  ]

  -- The chain of managers from an agent, the highest first, without going to one twice.
  unfoldable pub manager_chain : ℕ → List String → String → List String
  unfolding manager_of
  manager_chain zero visited agent_id = visited
  manager_chain (suc fuel) visited agent_id = elim (manager_of agent_id) [
    | none ↦ visited
    | some manager_id ↦ elim (contains visited manager_id) [
      | true ↦ visited
      | false ↦ manager_chain fuel (manager_id ∷ visited) manager_id
    ]
  ]

  unfoldable pub hierarchy_would_cycle : String → String → Bool
  unfolding manager_chain
  hierarchy_would_cycle agent_id manager_agent_id = elim (live_agent manager_agent_id) [
    | none ↦ false
    | some row ↦ contains (manager_chain (length agents) (row.id ∷ []) row.id) agent_id
  ]
