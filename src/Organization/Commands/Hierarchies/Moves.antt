-- ===== src/Organization/Commands/Hierarchies/Moves.antt =====
-- Changes of managers and new agents, under which a hierarchy stays a forest.
use mathlib.Core.Option.{some-injective}
use gereh.Prelude.{
  Bool-cases, Option-cases, is_some, find_row, ◌==◌, string_eq, String, ◌≡◌, sym, ap, ◌∙◌, subst,
  ◌⊎◌, inl, inr, true, false, Option, none, some, arith, nat_eq,
}
use gereh.Organization.Model.{Agent}
use gereh.Organization.Store.{OrganizationStore, is_agent, is_live}
use gereh.Organization.Agents.{UpdateAgentParams, with_manager}
use gereh.Organization.Agents.Inversion.{UpdatedAgent}
use gereh.Organization.Agents.Managers.{CheckedManager}
use gereh.Organization.Hierarchy.{live_agent}
use gereh.Organization.Hierarchy.Chain.{Leads, hierarchy_would_cycle-Leads}
use gereh.Organization.Hierarchy.Forest.{IsForest}
use gereh.Organization.Hierarchy.View.{seen_as, view, OneAgent, live_agent-view}
use gereh.Organization.Hierarchy.Kept.{IsForest-seen, IsForest-seen_but_one}
use gereh.Organization.Commands.Rows.{IsConsistent, KeepsKeys, IsConsistent-update}
use gereh.Organization.Commands.Hierarchies.{
  IsSound, manager_keys, selected, view_unless, view-selected, selected_at,
}

-- A manager that takes part and passed the check is not under the agent.
checked_apart :
    (s : OrganizationStore) (agent : Agent) (m c : String)
    → OneAgent s.agents
    → CheckedManager s agent (some m)
    → is_some (view agent.tenant_id c s.agents m) ≡ true
    → ¬ Leads agent.tenant_id c s.agents m agent.id
checked_apart s agent m c one (differs, (row, at, mine), no_cycle) seen leads =
    let in_c : c ≡ agent.company_id =
      sym ((string_eq.same_iff row.company_id c).0 (ground (arith, at, seen)))
      ∙ (string_eq.same_iff row.company_id agent.company_id).0 mine in
    let live : is_some (live_agent agent.tenant_id c s.agents m) ≡ true =
      ground (arith, at, seen, live_agent-view agent.tenant_id c s.agents one m) in
    absurd (
      ground (
        arith,
        no_cycle,
        (hierarchy_would_cycle-Leads agent.tenant_id agent.company_id s.agents agent.id m).1 (
            subst
              (λ i.
                (is_some (live_agent agent.tenant_id i s.agents m) ≡ true)
                × Leads agent.tenant_id i s.agents m agent.id)
              in_c (live, leads)),
      ))

some_checked :
    (s : OrganizationStore) (agent : Agent) (manager : Option String) (m : String)
    → manager ≡ some m
    → CheckedManager s agent manager
    → CheckedManager s agent (some m)
some_checked s agent manager m e = subst (CheckedManager s agent) e

module _ (params : UpdateAgentParams) (s s' : OrganizationStore)
    (checks : CheckedManager s params.agent params.agent.manager_agent_id)
    (inv : UpdatedAgent (with_manager params.agent) params s s') (old : IsSound s.agents) where
  abbrev change : Agent → Agent
  change = with_manager params.agent

  abbrev keys : KeepsKeys change
  keys = manager_keys params.agent

  pub IsConsistent-after : IsConsistent s'.agents
  IsConsistent-after = IsConsistent-update change keys params s s' inv old.consistent

  -- Whoever takes part still does, and no one else.
  same_seen : (t c m : String) → is_some (view t c s'.agents m) ≡ is_some (view t c s.agents m)
  same_seen t c m = elim (Option-cases (find_row (is_agent t m) s.agents)) [
    | inl e ↦
        ap is_some
          (view_unless change keys params s s' inv t c m (λ r k. absurd (ground (arith, e, k))))
    | inr (r, e) ↦ elim (Bool-cases (selected change keys params s s' inv r)) [
      | inl k ↦ ground (arith, e, view-selected change keys params s s' inv t c m r e k)
      | inr k ↦ ap is_some (
          view_unless change keys params s s' inv t c m
            (λ x at. rw (some-injective _ _ (sym at ∙ e)) k))
    ]
  ]

  unmoved :
      (t a : String)
      → (t ≡ params.agent.tenant_id → a ≡ params.agent.id → ⊥)
      → (row : Agent) → find_row (is_agent t a) s.agents ≡ some row
      → selected change keys params s s' inv row ≡ false
  unmoved t a apart row e = elim (Bool-cases (selected change keys params s s' inv row)) [
    | inl k ↦
        let (at_t, at_a) = selected_at change keys params s s' inv t a row e k in
        absurd (apart at_t at_a)
    | inr k ↦ k
  ]

  seen_moved :
      (t c : String) (row : Agent)
      → (seen_as t c (some (change row)) ≡ none)
        ⊎ (seen_as t c (some (change row)) ≡ some params.agent.manager_agent_id)
  seen_moved t c row = elim (Bool-cases (is_live t c row)) [
    | inl k ↦ inr (ground (arith, k))
    | inr k ↦ inl (ground (arith, k))
  ]

  -- If the row of the agent was affected.
  moved-IsForest :
      (row : Agent)
      → find_row (is_agent params.agent.tenant_id params.agent.id) s.agents ≡ some row
      → selected change keys params s s' inv row ≡ true
      → (c : String) → IsForest params.agent.tenant_id c s'.agents
  moved-IsForest row e k c =
      let t = params.agent.tenant_id in
      IsForest-seen_but_one t c s.agents s'.agents old.consistent.one_agent
        IsConsistent-after.one_agent params.agent.id params.agent.manager_agent_id
        (λ a differs. view_unless change keys params s s' inv t c a (
          unmoved t a (λ _ same.
            absurd (ground (arith, differs, (string_eq.same_iff a params.agent.id).1 same)))))
        (λ a m differs at. same_seen t c m)
        (rw (view-selected change keys params s s' inv t c params.agent.id row e k)
          (seen_moved t c row))
        (λ m at seen.
          checked_apart s params.agent m c old.consistent.one_agent
            (some_checked s params.agent params.agent.manager_agent_id m at checks)
            (sym (same_seen t c m) ∙ seen))
        (old.forest t c)

  still-IsForest :
      (t c : String)
      → ((a : String) (row : Agent)
          → find_row (is_agent t a) s.agents ≡ some row
          → selected change keys params s s' inv row ≡ false)
      → IsForest t c s'.agents
  still-IsForest t c apart =
      IsForest-seen t c s.agents s'.agents old.consistent.one_agent IsConsistent-after.one_agent
        (λ a. inl (view_unless change keys params s s' inv t c a (apart a))) (old.forest t c)

  own-IsForest : (c : String) → IsForest params.agent.tenant_id c s'.agents
  own-IsForest c =
      let t = params.agent.tenant_id in
      let found =
        λ (a : String) (x : Agent) (at : find_row (is_agent t a) s.agents ≡ some x)
            (same : a ≡ params.agent.id).
          subst (λ i. find_row (is_agent t i) s.agents ≡ some x) same at in
      elim (Option-cases (find_row (is_agent t params.agent.id) s.agents)) [
        | inl e ↦
            still-IsForest t c
              (λ a x at. unmoved t a (λ _ same. absurd (ground (arith, e, found a x at same))) x at)
        | inr (row, e) ↦ elim (Bool-cases (selected change keys params s s' inv row)) [
          | inl k ↦ moved-IsForest row e k c
          | inr k ↦ still-IsForest t c (λ a x at.
              elim (Bool-cases (selected change keys params s s' inv x)) [
                | inl hit ↦
                    let (_, same) = selected_at change keys params s s' inv t a x at hit in
                    let one : x ≡ row = some-injective _ _ (sym (found a x at same) ∙ e) in rw one k
                | inr miss ↦ miss
              ])
        ]
      ]

  IsForest-after : (t c : String) → IsForest t c s'.agents
  IsForest-after t c = elim (Bool-cases (t == params.agent.tenant_id)) [
    | inr apart ↦ still-IsForest t c (λ a. unmoved t a (λ same _.
        absurd (ground (arith, apart, (string_eq.same_iff t params.agent.tenant_id).1 same))))
    | inl mine ↦
        let at_t : t ≡ params.agent.tenant_id =
          (string_eq.same_iff t params.agent.tenant_id).0 mine in
        subst (λ i. IsForest i c s'.agents) (sym at_t) (own-IsForest c)
  ]

  pub move-IsSound : IsSound s'.agents
  move-IsSound = record { consistent = IsConsistent-after; forest = IsForest-after }
