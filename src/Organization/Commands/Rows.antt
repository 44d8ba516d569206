-- ===== src/Organization/Commands/Rows.antt =====
-- The keys, the checks and the references of the table of agents.
use gereh.Prelude.{
  Bool-cases, Option-cases, keep_if, all_of, any_of, find_row, count_where, count_where-append,
  count_where-update_where_same, find_row-satisfies, find_row-none, all_of-append, any_of-append,
  all_of-update_checked, all_of_mono, any_of-update_where, find_row-narrower_none, any_of-find_row,
  ◌==◌, string_eq, String, ◌≡◌, refl, sym, ◌∙◌, subst, inl, inr, Bool, true, ◌&&◌, none, List, [],
  ◌∷◌, ◌++◌, arith, nat_eq,
}
use gereh.Organization.Model.{Agent}
use gereh.Organization.Store.{OrganizationStore, is_agent}
use gereh.Organization.Agents.{
  CreateAgentParams, UpdateAgentParams, passes_checks, clashes_with, inserted, has_known_manager,
  is_agent_at,
}
use gereh.Organization.Agents.Inversion.{KnownManager, CreatedAgent, UpdatedAgent}
use gereh.Organization.Hierarchy.View.{OneAgent}

-- What the constraints of the table say.
pub record IsConsistent (agents : List Agent) : Type 0 where
  pub one_agent : OneAgent agents
  pub checked : all_of passes_checks agents ≡ true
  pub known : all_of (has_known_manager agents) agents ≡ true

-- A change that leaves the keys.
pub record KeepsKeys (change : Agent → Agent) : Type 0 where
  pub tenant_kept : (r : Agent) → (change r).tenant_id ≡ r.tenant_id
  pub company_kept : (r : Agent) → (change r).company_id ≡ r.company_id
  pub id_kept : (r : Agent) → (change r).id ≡ r.id

abbrev pub is_of : Agent → String → Agent → Bool
is_of row manager_id m = is_agent row.tenant_id manager_id m && m.company_id == row.company_id

known_mono :
    (old new : List Agent) (row : Agent)
    → ((m : String) → any_of (is_of row m) old ≡ true → any_of (is_of row m) new ≡ true)
    → has_known_manager old row ≡ true
    → has_known_manager new row ≡ true
known_mono old new row more h = elim (Option-cases row.manager_agent_id) [
  | inl e ↦ ground (arith, e)
  | inr (m, e) ↦ ground (arith, e, h, more m)
]

pub IsConsistent-update :
    (change : Agent → Agent) (keys : KeepsKeys change) (params : UpdateAgentParams)
    (s s' : OrganizationStore)
    → UpdatedAgent change params s s'
    → IsConsistent s.agents
    → IsConsistent s'.agents
IsConsistent-update change keys params s s' inv old =
    let sel = is_agent_at params.agent.tenant_id params.agent.id params.expected_version in
    let kept = λ (row : Agent) (m : String).
      any_of-update_where (is_of row m) sel change s.agents
        (λ x. rw (keys.tenant_kept x, keys.company_kept x, keys.id_kept x) refl) in
    record {
      one_agent = rw inv.agents_after (λ t a.
          rw
            (count_where-update_where_same (is_agent t a) sel change s.agents
              (λ x _. rw (keys.tenant_kept x, keys.id_kept x) refl))
            (old.one_agent t a));
      checked = rw inv.agents_after (
          all_of-update_checked passes_checks sel change s.agents old.checked (
            all_of_mono
              (λ row. passes_checks (change row) && has_known_manager s'.agents (change row))
              (λ row. passes_checks (change row)) (keep_if sel s.agents) (λ x k. ground (arith, k))
              inv.checked));
      known =
          subst (λ xs. all_of (has_known_manager s'.agents) xs ≡ true) (sym inv.agents_after)
            (all_of-update_checked (has_known_manager s'.agents) sel change s.agents
              (all_of_mono (has_known_manager s.agents) (has_known_manager s'.agents) s.agents
                (λ x k.
                  known_mono s.agents s'.agents x (λ m h. rw inv.agents_after (kept x m ∙ h)) k)
                old.known)
              (all_of_mono
                (λ row. passes_checks (change row) && has_known_manager s'.agents (change row))
                (λ row. has_known_manager s'.agents (change row)) (keep_if sel s.agents)
                (λ x k. ground (arith, k)) inv.checked));
    }

OneAgent-append :
    (agents : List Agent) (agent : Agent)
    → find_row (clashes_with agent) agents ≡ none
    → OneAgent agents
    → OneAgent (agents ++ inserted agent ∷ [])
unfolding count_where
OneAgent-append agents agent fresh one t a = elim (Bool-cases (is_agent t a agent)) [
  | inl mine ↦
      let at_t : agent.tenant_id ≡ t = (string_eq.same_iff agent.tenant_id t).0 (ground arith) in
      let at_a : agent.id ≡ a = (string_eq.same_iff agent.id a).0 (ground arith) in
      let unused : count_where (is_agent t a) agents ≡ 0 =
        rw (← at_t, ← at_a)
          (find_row-none (is_agent agent.tenant_id agent.id) agents (
            find_row-narrower_none (clashes_with agent) (is_agent agent.tenant_id agent.id) agents
              (λ x k. ground (arith, k)) fresh)) in
      ground (arith, count_where-append (is_agent t a) agents (inserted agent ∷ []), unused)
  | inr another ↦
      ground
        (arith, count_where-append (is_agent t a) agents (inserted agent ∷ []), one t a, another)
]

and_true : {b c : Bool} → b ≡ true → c ≡ true → (b && c) ≡ true
and_true h k = ground (arith, h, k)

-- The manager of a new agent was there.
new_known :
    (params : CreateAgentParams) (s : OrganizationStore)
    → KnownManager s params.agent params.agent.manager_agent_id
    → all_of
        (has_known_manager (s.agents ++ inserted params.agent ∷ []))
        (inserted params.agent ∷ [])
      ≡ true
new_known params s h = elim (Option-cases params.agent.manager_agent_id) [
  | inl e ↦ ground (arith, e)
  | inr (m, e) ↦
      let (manager, at, mine) = subst (KnownManager s params.agent) e h in
      ground (
        arith,
        e,
        any_of-append (is_of params.agent m) s.agents (inserted params.agent ∷ []),
        any_of-find_row (is_of params.agent m) (is_agent params.agent.tenant_id m) s.agents manager
            at (ground (arith, mine, find_row-satisfies _ s.agents manager at)),
      )
]

pub IsConsistent-append :
    (params : CreateAgentParams) (s s' : OrganizationStore)
    → CreatedAgent params s s'
    → IsConsistent s.agents
    → IsConsistent s'.agents
IsConsistent-append params s s' inv old = record {
  one_agent = rw inv.agents_after (OneAgent-append s.agents params.agent inv.fresh old.one_agent);
  checked = rw (inv.agents_after, all_of-append) (ground (arith, inv.checked, old.checked));
  known =
      rw (inv.agents_after, all_of-append)
        (and_true
          (all_of_mono (has_known_manager s.agents)
            (has_known_manager (s.agents ++ inserted params.agent ∷ [])) s.agents
            (λ x k.
              known_mono s.agents (s.agents ++ inserted params.agent ∷ []) x
                (λ m h.
                  ground
                    (arith, h, any_of-append (is_of x m) s.agents (inserted params.agent ∷ [])))
                k)
            old.known)
          (new_known params s inv.manager_known));
}
