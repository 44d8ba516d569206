-- ===== src/Organization/Requests/Later.antt =====
-- The agents at a later moment: they have not gone, and one at the same version is the same.
use gereh.Prelude.{
  Bool-cases, find_row, find_row-append, ◌+◌, ◌≤◌, String, ◌≡◌, refl, sym, ap, ◌∙◌, subst, inl, inr,
  some, List, [], ◌∷◌, arith, string_eq, nat_eq,
}
use gereh.Organization.Model.{Agent}
use gereh.Organization.Store.{OrganizationStore, is_agent}
use gereh.Organization.Agents.{
  UpdateAgentParams, inserted, with_settings, with_manager, with_status, with_deleted,
}
use gereh.Organization.Agents.Inversion.{UpdatedAgent}
use gereh.Organization.Commands.{Command, execute}
use gereh.Organization.Commands.Effects.{
  Effect, nothing, company_added, company_edited, company_closed, agent_added, agent_edited,
  agent_moved, status_set, agent_dropped, execute-Effect,
}
use gereh.Organization.Commands.Rows.{KeepsKeys}
use gereh.Organization.Commands.Hierarchies.{
  settings_keys, status_keys, manager_keys, deleted_keys, selected, row_after,
}

abbrev pub IsLater : List Agent → List Agent → Type 0
IsLater old new =
    (t a : String) (row : Agent)
    → find_row (is_agent t a) old ≡ some row
    → (row' : Agent) × (find_row (is_agent t a) new ≡ some row')
      × (row.version ≤ row'.version)
      × (row.version ≡ row'.version → row ≡ row')

pub IsLater-refl : (agents : List Agent) → IsLater agents agents
IsLater-refl agents t a row e = (row, e, omega arith, λ _. refl)

pub IsLater-trans : (xs ys zs : List Agent) → IsLater xs ys → IsLater ys zs → IsLater xs zs
IsLater-trans xs ys zs f g t a row e =
    let (row1, e1, le1, same1) = f t a row e in
    let (row2, e2, le2, same2) = g t a row1 e1 in
    (
      row2,
      e2,
      omega (arith, le1, le2),
      λ k. same1 (omega (arith, le1, le2, k)) ∙ same2 (omega (arith, le1, le2, k)),
    )

updated-IsLater :
    (change : Agent → Agent) (keys : KeepsKeys change) (params : UpdateAgentParams)
    (s s' : OrganizationStore)
    → ((r : Agent) → (change r).version ≡ r.version + 1)
    → UpdatedAgent change params s s'
    → IsLater s.agents s'.agents
updated-IsLater change keys params s s' bump inv t a row e =
    elim (Bool-cases (selected change keys params s s' inv row)) [
      | inl k ↦ (
        change row,
        row_after change keys params s s' inv t a (some row) e
            ∙ ap some {y = change row} (rw k refl),
        omega (arith, bump row),
        λ same. absurd (omega (arith, bump row, same)),
      )
      | inr k ↦ (
        row,
        row_after change keys params s s' inv t a (some row) e ∙ ap some {y = row} (rw k refl),
        omega arith,
        λ same. refl,
      )
    ]

Effect-IsLater : (s s' : OrganizationStore) → Effect s s' → IsLater s.agents s'.agents
Effect-IsLater s s' (nothing same) =
    subst (IsLater s.agents) (sym same.agents_after) (IsLater-refl s.agents)
Effect-IsLater s s' (company_added company inv) =
    subst (IsLater s.agents) (sym inv.agents_after) (IsLater-refl s.agents)
Effect-IsLater s s' (company_edited params inv) =
    subst (IsLater s.agents) (sym inv.agents_after) (IsLater-refl s.agents)
Effect-IsLater s s' (company_closed params _ inv) =
    subst (IsLater s.agents) (sym inv.agents_after) (IsLater-refl s.agents)
Effect-IsLater s s' (agent_added params inv) = λ t a row e. (
  row,
  ap (find_row (is_agent t a)) inv.agents_after
      ∙ find_row-append (is_agent t a) s.agents (inserted params.agent ∷ []) row e,
  omega arith,
  λ _. refl,
)
Effect-IsLater s s' (agent_edited params inv) =
    updated-IsLater (with_settings params.agent) (settings_keys params.agent) params s s'
      (λ r. refl) inv
Effect-IsLater s s' (agent_moved params _ inv) =
    updated-IsLater (with_manager params.agent) (manager_keys params.agent) params s s' (λ r. refl)
      inv
Effect-IsLater s s' (status_set params inv) =
    updated-IsLater (with_status params.agent) (status_keys params.agent) params s s' (λ r. refl)
      inv
Effect-IsLater s s' (agent_dropped params inv) =
    updated-IsLater (with_deleted params.agent) (deleted_keys params.agent) params s s' (λ r. refl)
      inv

pub execute-IsLater :
    (c : Command) (s : OrganizationStore) → IsLater s.agents (execute c s).1.agents
execute-IsLater c s = Effect-IsLater s (execute c s).1 (execute-Effect c s)
