-- ===== src/Organization/Commands/Hierarchies.antt =====
-- The hierarchies under the commands: the reporting lines of a company never close to a cycle.
pub mod Moves
pub mod Forests
use mathlib.Core.Option
use mathlib.Core.Option.{some-injective}
use gereh.Prelude.{
  if◌then◌else◌, Bool-cases, Option-cases, find_row, find_row-satisfies, find_row-update_where,
  all_of-find_row, all_of-kept, string_eq, String, ◌≡◌, refl, sym, ap, ◌∙◌, ◌⊎◌, inl, inr, Bool,
  true, false, ◌&&◌, Option, none, some, List, map, arith, nat_eq,
}
use gereh.Organization.Model.{Agent}
use gereh.Organization.Store.{OrganizationStore, is_agent}
use gereh.Organization.Agents.{
  UpdateAgentParams, passes_checks, has_known_manager, is_agent_at, with_settings, with_manager,
  with_status, with_deleted,
}
use gereh.Organization.Agents.Inversion.{UpdatedAgent}
use gereh.Organization.Hierarchy.Forest.{IsForest}
use gereh.Organization.Hierarchy.View.{seen_as, view}
use gereh.Organization.Hierarchy.Kept.{IsForest-seen}
use gereh.Organization.Commands.Rows.{IsConsistent, KeepsKeys, IsConsistent-update}

-- A table of agents that passes its constraints, and in which no reporting line is a cycle.
pub record IsSound (agents : List Agent) : Type 0 where
  pub consistent : IsConsistent agents
  pub forest : (t c : String) → IsForest t c agents

pub settings_keys : (new : Agent) → KeepsKeys (with_settings new)
settings_keys new = record {
  tenant_kept = λ r. refl;
  company_kept = λ r. refl;
  id_kept = λ r. refl;
}

pub status_keys : (new : Agent) → KeepsKeys (with_status new)
status_keys new = record { tenant_kept = λ r. refl; company_kept = λ r. refl; id_kept = λ r. refl }

pub manager_keys : (new : Agent) → KeepsKeys (with_manager new)
manager_keys new = record { tenant_kept = λ r. refl; company_kept = λ r. refl; id_kept = λ r. refl }

pub deleted_keys : (new : Agent) → KeepsKeys (with_deleted new)
deleted_keys new = record { tenant_kept = λ r. refl; company_kept = λ r. refl; id_kept = λ r. refl }

module _ (change : Agent → Agent) (keys : KeepsKeys change) (params : UpdateAgentParams)
    (s s' : OrganizationStore) (inv : UpdatedAgent change params s s') where
  abbrev pub selected : Agent → Bool
  selected = is_agent_at params.agent.tenant_id params.agent.id params.expected_version

  pub row_after :
      (t a : String) (o : Option Agent)
      → find_row (is_agent t a) s.agents ≡ o
      → find_row (is_agent t a) s'.agents
        ≡ Option.map (λ row. if selected row then change row else row) o
  row_after t a o e = rw inv.agents_after (
      find_row-update_where (is_agent t a) selected change s.agents
        (λ x. rw (keys.tenant_kept x, keys.id_kept x) refl)
      ∙ ap (Option.map (λ row. if selected row then change row else row)) e)

  pub view_unless :
      (t c a : String)
      → ((row : Agent) → find_row (is_agent t a) s.agents ≡ some row → selected row ≡ false)
      → view t c s'.agents a ≡ view t c s.agents a
  view_unless t c a apart = elim (Option-cases (find_row (is_agent t a) s.agents)) [
    | inl e ↦ ground (arith, e, row_after t a none e)
    | inr (row, e) ↦ ground (arith, e, apart row e, row_after t a (some row) e)
  ]

  pub view-selected :
      (t c a : String) (row : Agent)
      → find_row (is_agent t a) s.agents ≡ some row
      → selected row ≡ true
      → view t c s'.agents a ≡ seen_as t c (some (change row))
  view-selected t c a row e k =
      ap (seen_as t c) (row_after t a (some row) e ∙ ap some {y = change row} (rw k refl))

  pub selected_at :
      (t a : String) (row : Agent)
      → find_row (is_agent t a) s.agents ≡ some row
      → selected row ≡ true
      → (t ≡ params.agent.tenant_id) × (a ≡ params.agent.id)
  selected_at t a row e k =
      let found = find_row-satisfies (is_agent t a) s.agents row e in
      (
        sym ((string_eq.same_iff row.tenant_id t).0 (ground (arith, found)))
            ∙ (string_eq.same_iff row.tenant_id params.agent.tenant_id).0 (ground (arith, k)),
        sym ((string_eq.same_iff row.id a).0 (ground (arith, found)))
            ∙ (string_eq.same_iff row.id params.agent.id).0 (ground (arith, k)),
      )

  -- An update after which each affected agent is seen as before, or no longer, keeps all sound.
  IsSound-seen :
      ((t c a : String) (row : Agent)
        → find_row (is_agent t a) s.agents ≡ some row
        → selected row ≡ true
        → (seen_as t c (some (change row)) ≡ seen_as t c (some row))
          ⊎ (seen_as t c (some (change row)) ≡ none))
      → IsSound s.agents
      → IsSound s'.agents
  IsSound-seen fewer old =
      let consistent = IsConsistent-update change keys params s s' inv old.consistent in
      record {
        consistent = consistent;
        forest = λ t c.
            IsForest-seen t c s.agents s'.agents old.consistent.one_agent consistent.one_agent
              (λ a. elim (Option-cases (find_row (is_agent t a) s.agents)) [
                | inl e ↦ inl (view_unless t c a (λ row k. absurd (ground (arith, e, k))))
                | inr (row, e) ↦ elim (Bool-cases (selected row)) [
                  | inl k ↦ rw (view-selected t c a row e k, e) (fewer t c a row e k)
                  | inr k ↦ inl (view_unless t c a (λ x at. rw (some-injective _ _ (sym at ∙ e)) k))
                ]
              ])
              (old.forest t c);
      }

pub edit-IsSound :
    (params : UpdateAgentParams) (s s' : OrganizationStore)
    → UpdatedAgent (with_settings params.agent) params s s'
    → IsSound s.agents
    → IsSound s'.agents
edit-IsSound params s s' inv =
    IsSound-seen (with_settings params.agent) (settings_keys params.agent) params s s' inv
      (λ t c a row e k. inl refl)

-- The check of the table: an agent is deleted before exactly if it is after, since the time of the
-- deletion stays.
pub status-IsSound :
    (params : UpdateAgentParams) (s s' : OrganizationStore)
    → UpdatedAgent (with_status params.agent) params s s'
    → IsSound s.agents
    → IsSound s'.agents
status-IsSound params s s' inv old =
    IsSound-seen (with_status params.agent) (status_keys params.agent) params s s' inv
      (λ t c a row e k.
        let before : passes_checks row ≡ true =
          all_of-find_row passes_checks _ s.agents row old.consistent.checked e in
        let after =
          all_of-kept
            (λ r.
              passes_checks (with_status params.agent r)
              && has_known_manager s'.agents (with_status params.agent r))
            _ (is_agent t a) s.agents row inv.checked e k in
        inl (ground (arith, before, after)))
      old

pub drop-IsSound :
    (params : UpdateAgentParams) (s s' : OrganizationStore)
    → UpdatedAgent (with_deleted params.agent) params s s'
    → IsSound s.agents
    → IsSound s'.agents
drop-IsSound params s s' inv =
    IsSound-seen (with_deleted params.agent) (deleted_keys params.agent) params s s' inv
      (λ t c a row e k. inr (ground arith))
