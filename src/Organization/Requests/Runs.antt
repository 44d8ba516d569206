-- ===== src/Organization/Requests/Runs.antt =====
-- Runs: requests whose reads and writes come in any order.
use gereh.Prelude.{
  is_some, find_row, find_row-append, Result, ok, err, conclude-err, outcome, outcome_by,
  find_row-append_one, find_row-appended, string_eq, eq_refl, ◌+◌, ◌≤◌, String, ◌≡◌, refl, sym, ap,
  ◌∙◌, subst, ◌⊎◌, inl, inr, Option, none, some, arith, nat_eq,
}
use gereh.Organization.Model.{Company, Agent, AgentRevision, Error}
use gereh.Organization.Store.{OrganizationStore, is_agent, is_revision}
use gereh.Organization.Agents.{
  CreateAgentParams, UpdateAgentParams, inserted, create_agent, with_settings, with_manager,
  with_status, with_deleted, update_agent_with, update_agent, change_agent_status,
  set_agent_manager, delete_agent,
}
use gereh.Organization.Agents.Inversion.{
  revision_of, CreatedAgent, create_agent-inv, UpdatedAgent, update_agent_with-inv,
}
use gereh.Organization.Agents.Managers.{set_agent_manager-inv, delete_agent-inv}
use gereh.Organization.Companies.{
  create_company, ensure_default_company, update_company, archive_company,
}
use gereh.Organization.Companies.Inversion.{
  create_company-inv, ensure_default_company-inv, update_company-inv, archive_company-inv,
}
use gereh.Organization.Requests.Prepared.{IsChangeOfRead}
use gereh.Organization.Commands.{Command, edit_agent, move_agent, set_status, drop_agent, execute}
use gereh.Organization.Requests.{Request, admits}
use gereh.Organization.Requests.Sent.{
  Sends, creates, edits, moves, sets, drops, opens, bootstraps, describes, closes,
}
use gereh.Organization.Requests.Later.{IsLater}
use gereh.Organization.Requests.Revisions.{IsRecorded, is_some-append, updated-IsRecorded}
use gereh.Organization.Commands.Rows.{KeepsKeys, IsConsistent-append}
use gereh.Organization.Commands.Hierarchies.{settings_keys, status_keys, manager_keys, deleted_keys}

module _ (params : CreateAgentParams) (s s' : OrganizationStore) (one : params.agent.version ≡ 1)
    (new : inserted params.agent ≡ params.agent) (inv : CreatedAgent params s s')
    (old : IsRecorded s.agents s.revisions) where
  abbrev first_revision : AgentRevision
  first_revision = revision_of params.agent "created" params.actor_user_id params.agent.created_at

  there_or_new :
      (t a : String) (row : Agent)
      → find_row (is_agent t a) s'.agents ≡ some row
      → (find_row (is_agent t a) s.agents ≡ some row)
        ⊎ ((t ≡ params.agent.tenant_id) × (a ≡ params.agent.id) × (params.agent ≡ row))
  there_or_new t a row e =
      elim (find_row-appended (is_agent t a) s.agents (inserted params.agent) row
        (sym (ap (find_row (is_agent t a)) inv.agents_after) ∙ e)) [
          | inl at ↦ inl at
          | inr (_, mine, same) ↦ inr (
            sym ((string_eq.same_iff params.agent.tenant_id t).0 (ground (arith, mine))),
            sym ((string_eq.same_iff params.agent.id a).0 (ground (arith, mine))),
            sym new ∙ same,
          )
        ]

  its_revision :
      find_row
        (is_revision params.agent.tenant_id params.agent.id params.agent.version)
        s'.revisions
      ≡ some first_revision
  its_revision =
      let p = is_revision params.agent.tenant_id params.agent.id params.agent.version in
      ap (find_row p) inv.revisions_after
      ∙ ground (
        arith,
        find_row-append_one p s.revisions first_revision,
        inv.fresh_revision,
        eq_refl params.agent.tenant_id,
        eq_refl params.agent.id,
        eq_refl params.agent.version,
      )

  created-IsRecorded : IsRecorded s'.agents s'.revisions
  created-IsRecorded = record {
    consistent = IsConsistent-append params s s' inv old.consistent;
    covered = λ t a row e version low high. elim (there_or_new t a row e) [
      | inl at ↦
          rw inv.revisions_after
            (is_some-append _ s.revisions _ (old.covered t a row at version low high))
      | inr (at_t, at_a, same) ↦
          let top : version ≤ params.agent.version = rw same high in
          let its : params.agent.version ≡ version = omega (arith, one, low, top) in
          rw (at_t, at_a, ← its) (ap is_some its_revision)
    ];
    latest = λ t a row e. elim (there_or_new t a row e) [
      | inl at ↦
          let (revision, recorded, same) = old.latest t a row at in
          (
            revision,
            ap (find_row (is_revision t a row.version)) inv.revisions_after
                ∙ find_row-append _ s.revisions _ revision recorded,
            same,
          )
      | inr (at_t, at_a, same) ↦ (first_revision, rw (at_t, at_a, ← same) its_revision, same)
    ];
  }

same-IsRecorded :
    (s s' : OrganizationStore)
    → s'.agents ≡ s.agents
    → s'.revisions ≡ s.revisions
    → IsRecorded s.agents s.revisions
    → IsRecorded s'.agents s'.revisions
same-IsRecorded s s' same_agents same_revisions old =
    subst (λ rs. IsRecorded s'.agents rs) (sym same_revisions)
      (subst (λ xs. IsRecorded xs s.revisions) (sym same_agents) old)

-- The agent that a command writes over the one that it names.
abbrev pub written_by : Command → Option Agent
written_by (edit_agent params) = some params.agent
written_by (move_agent params) = some params.agent
written_by (set_status params) = some params.agent
written_by (drop_agent params) = some params.agent
written_by _ = none

module _ (request : Request) (read s : OrganizationStore) (later : IsLater read.agents s.agents)
    (old : IsRecorded s.agents s.revisions) where
  -- An update by a method of the repository.
  update-IsRecorded :
      (set : Agent → Agent → Agent) (keys : (n : Agent) → KeepsKeys (set n))
      (bump : (n r : Agent) → (set n r).version ≡ r.version + 1) (params : UpdateAgentParams)
      (x : Result Error Agent × OrganizationStore)
      → ((a : Agent) → x ≡ (ok a, x.1) → UpdatedAgent (set params.agent) params s x.1)
      → ((e : Error) → x.0 ≡ err e → x.1 ≡ s)
      → IsChangeOfRead (admits request) set params.agent read
      → IsRecorded (outcome x).1.agents (outcome x).1.revisions
  update-IsRecorded set keys bump params x done undone change =
      outcome_by (λ y. IsRecorded y.agents y.revisions) x s
        (λ a h.
          updated-IsRecorded (admits request) set keys bump params read s x.1 (done a h) later old
            change)
        undone old

  effect-IsRecorded :
      (x : Result Error Company × OrganizationStore)
      → ((a : Company) → x ≡ (ok a, x.1) → (x.1.agents ≡ s.agents) × (x.1.revisions ≡ s.revisions))
      → ((e : Error) → x.0 ≡ err e → x.1 ≡ s)
      → IsRecorded (outcome x).1.agents (outcome x).1.revisions
  effect-IsRecorded x done undone =
      outcome_by (λ y. IsRecorded y.agents y.revisions) x s
        (λ a h. let (same, also) = done a h in same-IsRecorded s x.1 same also old) undone old

  pub Sends-IsRecorded :
      (c : Command)
      → Sends request read c
      → IsRecorded (execute c s).1.agents (execute c s).1.revisions
  unfolding execute create_agent update_agent set_agent_manager change_agent_status delete_agent
      update_agent_with create_company ensure_default_company update_company archive_company
  Sends-IsRecorded c (creates params one new) =
      outcome_by (λ x. IsRecorded x.agents x.revisions) (create_agent params s) s
        (λ r h. created-IsRecorded params s _ one new (create_agent-inv params s _ r h) old)
        (λ e h. conclude-err _ s e h) old
  Sends-IsRecorded c (edits params change) =
      update-IsRecorded with_settings settings_keys (λ n r. refl) params (update_agent params s)
        (λ r h. update_agent_with-inv (with_settings params.agent) params s _ r h)
        (λ e h. conclude-err _ s e h) change
  Sends-IsRecorded c (moves params change) =
      update-IsRecorded with_manager manager_keys (λ n r. refl) params (set_agent_manager params s)
        (λ r h. (set_agent_manager-inv params s _ r h).1) (λ e h. conclude-err _ s e h) change
  Sends-IsRecorded c (sets params change) =
      update-IsRecorded with_status status_keys (λ n r. refl) params (change_agent_status params s)
        (λ r h. update_agent_with-inv (with_status params.agent) params s _ r h)
        (λ e h. conclude-err _ s e h) change
  Sends-IsRecorded c (drops params change) =
      update-IsRecorded with_deleted deleted_keys (λ n r. refl) params (delete_agent params s)
        (λ r h. (delete_agent-inv params s _ r h).1) (λ e h. conclude-err _ s e h) change
  Sends-IsRecorded c (opens params) =
      effect-IsRecorded (create_company params s)
        (λ r h.
          let inv = create_company-inv params s _ r h in (inv.agents_after, inv.revisions_after))
        (λ e h. conclude-err _ s e h)
  Sends-IsRecorded c (bootstraps params) =
      effect-IsRecorded (ensure_default_company params s)
        (λ r h. elim (ensure_default_company-inv params s _ r h) [
          | inl inv ↦ (inv.agents_after, inv.revisions_after)
          | inr inv ↦ (inv.agents_after, inv.revisions_after)
        ])
        (λ e h. conclude-err _ s e h)
  Sends-IsRecorded c (describes params) =
      effect-IsRecorded (update_company params s)
        (λ r h.
          let inv = update_company-inv params s _ r h in (inv.agents_after, inv.revisions_after))
        (λ e h. conclude-err _ s e h)
  Sends-IsRecorded c (closes params) =
      effect-IsRecorded (archive_company params s)
        (λ r h.
          let (_, _, inv) = archive_company-inv params s _ r h in
          (inv.agents_after, inv.revisions_after))
        (λ e h. conclude-err _ s e h)
