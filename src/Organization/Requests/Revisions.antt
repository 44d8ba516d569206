-- ===== src/Organization/Requests/Revisions.antt =====
-- The revisions of the agents, and what they prove of a write: it replaces the row that was read.
use mathlib.Core.Option.{some-injective}
use gereh.Prelude.{
  ltb, leb, Bool-cases, Option-cases, is_some, find_row, find_row-append, find_row-append_one,
  find_row-keep_if, ◌==◌, string_eq, eq_refl, ℕ, ◌+◌, ◌≤◌, String, ◌≡◌, refl, sym, ap, ◌∙◌, subst,
  ◌⊎◌, inl, inr, Bool, true, false, ◌&&◌, none, some, List, ◌++◌, arith, nat_eq,
}
use gereh.Organization.Model.{Agent, AgentRevision}
use gereh.Organization.Store.{OrganizationStore, is_agent, is_revision}
use gereh.Organization.Agents.{UpdateAgentParams, is_agent_at}
use gereh.Organization.Agents.Inversion.{revision_of, UpdatedAgent}
use gereh.Organization.Commands.Rows.{IsConsistent, KeepsKeys, IsConsistent-update}
use gereh.Organization.Requests.Later.{IsLater}
use gereh.Organization.Hierarchy.View.{find_row-narrow}
use gereh.Organization.Commands.Hierarchies.{row_after, selected_at}
use gereh.Organization.Requests.Prepared.{IsChangeOfRead}

-- The revisions of an agent reach from the first to the one that its row holds.
pub record IsRecorded (agents : List Agent) (revisions : List AgentRevision) : Type 0 where
  pub consistent : IsConsistent agents
  pub covered :
      (t a : String) (row : Agent)
      → find_row (is_agent t a) agents ≡ some row
      → (version : ℕ) → 1 ≤ version
      → version ≤ row.version
      → is_some (find_row (is_revision t a version) revisions) ≡ true
  pub latest :
      (t a : String) (row : Agent)
      → find_row (is_agent t a) agents ≡ some row
      → (revision : AgentRevision) × (find_row (is_revision t a row.version) revisions
          ≡ some revision)
        × (revision.snapshot ≡ row)

pub is_some-append :
    (p : AgentRevision → Bool) (xs ys : List AgentRevision)
    → is_some (find_row p xs) ≡ true
    → is_some (find_row p (xs ++ ys)) ≡ true
is_some-append p xs ys h = elim (Option-cases (find_row p xs)) [
  | inl e ↦ absurd (ground (arith, e, h))
  | inr (r, e) ↦ ap is_some (find_row-append p xs ys r e)
]

module _ (allowed : Agent → Bool) (set : Agent → Agent → Agent)
    (keys : (n : Agent) → KeepsKeys (set n))
    (bump : (n r : Agent) → (set n r).version ≡ r.version + 1) (params : UpdateAgentParams)
    (read s s' : OrganizationStore) (inv : UpdatedAgent (set params.agent) params s s')
    (later : IsLater read.agents s.agents) (old : IsRecorded s.agents s.revisions) where
  abbrev key : Agent → Bool
  key = is_agent params.agent.tenant_id params.agent.id

  abbrev chosen : Agent → Bool
  chosen = is_agent_at params.agent.tenant_id params.agent.id params.expected_version

  -- The row that was read is still there.
  unchanged_since :
      (current : Agent)
      → find_row key read.agents ≡ some current
      → set params.agent current ≡ params.agent
      → find_row key s.agents ≡ some current
  unchanged_since current found fits =
      let (row, at, le, same) = later params.agent.tenant_id params.agent.id current found in
      let next : params.agent.version ≡ current.version + 1 =
        sym (ap (λ (r : Agent). r.version) fits) ∙ bump params.agent current in
      let free : find_row (is_revision params.agent.tenant_id params.agent.id (current.version + 1))
            s.revisions
          ≡ none =
        subst
          (λ v. find_row (is_revision params.agent.tenant_id params.agent.id v) s.revisions ≡ none)
          next inv.fresh_revision in
      elim (Bool-cases (ltb current.version row.version)) [
        | inl less ↦
            let there =
              old.covered params.agent.tenant_id params.agent.id row at (current.version + 1)
                (omega arith) (ground (arith, less)) in
            absurd (ground (arith, there, free))
        | inr no_less ↦
            subst (λ r. find_row key s.agents ≡ some r) (sym (same (ground (arith, no_less, le))))
              at
      ]

  -- It is the row that was affected.
  is_chosen : (current : Agent) → find_row key s.agents ≡ some current → chosen current ≡ true
  is_chosen current at = elim (Bool-cases (chosen current)) [
    | inl k ↦ k
    | inr k ↦
        let none_there : find_row chosen s.agents ≡ none =
          find_row-narrow key chosen s.agents (λ x h. ground (arith, h))
            (old.consistent.one_agent params.agent.tenant_id params.agent.id)
          ∙ ground (arith, at, k) in
        absurd (ground (arith, inv.affected, find_row-keep_if chosen s.agents none_there))
  ]

  -- A write that succeeds has replaced the row that was read by the agent that it names.
  pub replaced :
      IsChangeOfRead allowed set params.agent read
      → (current : Agent) × (find_row key s.agents ≡ some current)
        × (allowed current ≡ true)
        × (find_row key s'.agents ≡ some params.agent)
        × (params.agent.version ≡ current.version + 1)
  replaced (current, found, fits, fine) =
      let at = unchanged_since current found fits in
      (
        current,
        at,
        fine,
        row_after (set params.agent) (keys params.agent) params s s' inv params.agent.tenant_id
              params.agent.id (some current) at
            ∙ ap some {y = set params.agent current} (rw (is_chosen current at) refl)
            ∙ ap some fits,
        sym (ap (λ (r : Agent). r.version) fits) ∙ bump params.agent current,
      )

  row_elsewhere :
      (t a : String)
      → (t == params.agent.tenant_id && a == params.agent.id) ≡ false
      → find_row (is_agent t a) s'.agents ≡ find_row (is_agent t a) s.agents
  row_elsewhere t a apart = elim (Option-cases (find_row (is_agent t a) s.agents)) [
    | inl e ↦ row_after (set params.agent) (keys params.agent) params s s' inv t a none e ∙ sym e
    | inr (row, e) ↦ elim (Bool-cases (chosen row)) [
      | inl k ↦
          let (at_t, at_a) =
            selected_at (set params.agent) (keys params.agent) params s s' inv t a row e k in
          absurd (
            ground (
              arith,
              apart,
              (string_eq.same_iff t params.agent.tenant_id).1 at_t,
              (string_eq.same_iff a params.agent.id).1 at_a,
            ))
      | inr k ↦
          row_after (set params.agent) (keys params.agent) params s s' inv t a (some row) e
          ∙ ap some {y = row} (rw k refl)
          ∙ sym e
    ]
  ]

  module _ (change : IsChangeOfRead allowed set params.agent read) where
    own_row : (row : Agent) → find_row key s'.agents ≡ some row → params.agent ≡ row
    own_row row e = let (_, _, _, now, _) = replaced change in some-injective _ _ (sym now ∙ e)

    own_revision :
        find_row
          (is_revision params.agent.tenant_id params.agent.id params.agent.version)
          s'.revisions
        ≡ some (
            revision_of params.agent params.change_kind params.actor_user_id
              params.agent.updated_at)
    own_revision =
        let p = is_revision params.agent.tenant_id params.agent.id params.agent.version in
        let new =
          revision_of params.agent params.change_kind params.actor_user_id
            params.agent.updated_at in
        ap (find_row p) inv.revisions_after
        ∙ ground (
          arith,
          find_row-append_one p s.revisions new,
          inv.fresh_revision,
          eq_refl params.agent.tenant_id,
          eq_refl params.agent.id,
          eq_refl params.agent.version,
        )

    own_covered :
        (row : Agent)
        → find_row key s'.agents ≡ some row
        → (version : ℕ) → 1 ≤ version
        → version ≤ row.version
        → is_some
            (find_row (is_revision params.agent.tenant_id params.agent.id version) s'.revisions)
          ≡ true
    own_covered row e version low high =
        let (current, at, _, _, next) = replaced change in
        let top : version ≤ current.version + 1 = rw (← next, own_row row e) high in
        elim (Bool-cases (leb version current.version)) [
          | inl k ↦ rw inv.revisions_after (
              is_some-append _ s.revisions _ (
                old.covered params.agent.tenant_id params.agent.id current at version low
                  (ground (arith, k))))
          | inr k ↦
              let last : params.agent.version ≡ version = ground (arith, k, top, next) in
              subst
                (λ v.
                  is_some
                    (find_row (is_revision params.agent.tenant_id params.agent.id v) s'.revisions)
                  ≡ true)
                last (ap is_some own_revision)
        ]

    here_or :
        (t a : String)
        → ((t ≡ params.agent.tenant_id) × (a ≡ params.agent.id))
          ⊎ ((t == params.agent.tenant_id && a == params.agent.id) ≡ false)
    here_or t a = elim (Bool-cases (t == params.agent.tenant_id && a == params.agent.id)) [
      | inl k ↦ inl (
        (string_eq.same_iff t params.agent.tenant_id).0 (ground (arith, k)),
        (string_eq.same_iff a params.agent.id).0 (ground (arith, k)),
      )
      | inr k ↦ inr k
    ]

    pub updated-IsRecorded : IsRecorded s'.agents s'.revisions
    updated-IsRecorded = record {
      consistent =
          IsConsistent-update (set params.agent) (keys params.agent) params s s' inv old.consistent;
      covered = λ t a row e version low high. elim (here_or t a) [
        | inl (at_t, at_a) ↦
            rw (at_t, at_a)
              (own_covered row
                (subst (λ i. find_row (is_agent params.agent.tenant_id i) s'.agents ≡ some row) at_a
                  (subst (λ i. find_row (is_agent i a) s'.agents ≡ some row) at_t e))
                version low high)
        | inr apart ↦ rw inv.revisions_after (
            is_some-append _ s.revisions _
              (old.covered t a row (sym (row_elsewhere t a apart) ∙ e) version low high))
      ];
      latest = λ t a row e. elim (here_or t a) [
        | inl (at_t, at_a) ↦
            let same = own_row row (
              subst (λ i. find_row (is_agent params.agent.tenant_id i) s'.agents ≡ some row) at_a
                (subst (λ i. find_row (is_agent i a) s'.agents ≡ some row) at_t e)) in
            (
              revision_of params.agent params.change_kind params.actor_user_id
                  params.agent.updated_at,
              rw (at_t, at_a, ← same) own_revision,
              same,
            )
        | inr apart ↦
            let (revision, at, same) = old.latest t a row (sym (row_elsewhere t a apart) ∙ e) in
            (revision, rw inv.revisions_after (find_row-append _ s.revisions _ revision at), same)
      ];
    }
