-- ===== src/Organization/Requests/Prepared.antt =====
-- What a request has read when it sends its command.
use gereh.Prelude.{
  Option-cases, find_row, find_row-satisfies, Result, ok, err, ◌>>=◌, ◌>>◌, continue-inv, throw_if,
  string_eq, ℕ, String, ◌≡◌, refl, sym, subst, inl, inr, Bool, true, false, not, Option, none, some,
  [], ◌∷◌, arith, nat_eq,
}
use gereh.Tenant.Permissions.{
  Permission, permission_agent_delete, permission_agent_hierarchy_manage,
  permission_agent_lifecycle_manage,
}
use gereh.Organization.Validation.{validate_uuids, can_delete}
use gereh.Organization.Model.{
  AgentStatus, deleted, is_deleted, Agent, Error, hierarchy_cycle, invalid_transition,
}
use gereh.Organization.Store.{OrganizationStore, Tx, is_agent, query_agent}
use gereh.Organization.Agents.{
  UpdateAgentParams, is_manager, get_agent, bumped, with_manager, with_status, with_deleted,
}
use gereh.Organization.Service.{
  Payload, agent_manager_changed, agent_lifecycle_changed, agent_deleted, Environment, lift,
  new_outbox_event,
}
use gereh.Organization.Service.AgentRequests.{
  SetAgentManagerInput, LifecycleInput, to_list, changed_or, read_agent, write_agent,
  prepare_set_agent_manager, prepare_status, prepare_delete_agent,
}

-- The agent to be written is what the change makes of the agent that was read, which allowed it.
abbrev pub IsChangeOfRead :
    (Agent → Bool) → (Agent → Agent → Agent) → Agent → OrganizationStore → Type 0
IsChangeOfRead allowed change agent s =
    (current : Agent) × (find_row (is_agent agent.tenant_id agent.id) s.agents ≡ some current)
    × (change agent current ≡ agent)
    × (allowed current ≡ true)

pub lift-inv {ℓ κ} :
    {A : Type ℓ} {B : Type κ} (r : Result Error A) (f : A → Tx B) (s : OrganizationStore)
    (x : B × OrganizationStore)
    → (lift r >>= f) s ≡ ok x
    → (a : A) × (r ≡ ok a) × (f a s ≡ ok x)
lift-inv (ok a) f s x h = (a, refl, h)
lift-inv (err e) f s x h = cc

pub changed_or-inv :
    {A B : Type 0} {C : Type 0} (o : Option A) (old : B) (validate : A → Result Error B)
    (f : B → Tx C) (s : OrganizationStore) (x : C × OrganizationStore)
    → (changed_or o old validate >>= f) s ≡ ok x
    → (b : B) × (f b s ≡ ok x)
changed_or-inv none old validate f s x h = (old, h)
changed_or-inv (some a) old validate f s x h =
    let (b, _, rest) = lift-inv (validate a) f s x h in (b, rest)

read_agent-inv :
    (env : Environment) (u t a : String) (p : Permission) (s s' : OrganizationStore)
    (current : Agent)
    → read_agent env u t a p s ≡ ok (current, s')
    → (find_row (is_agent current.tenant_id current.id) s.agents ≡ some current) × (s' ≡ s)
unfolding read_agent get_agent query_agent
read_agent-inv env u t a p s s' current h = elim (Option-cases (find_row (is_agent t a) s.agents)) [
  | inl e ↦ absurd (ground (arith, e, h))
  | inr (row, e) ↦
      let found = find_row-satisfies (is_agent t a) s.agents row e in
      let at_t : t ≡ row.tenant_id =
        sym ((string_eq.same_iff row.tenant_id t).0 (ground (arith, found))) in
      let at_a : a ≡ row.id = sym ((string_eq.same_iff row.id a).0 (ground (arith, found))) in
      let here : find_row (is_agent row.tenant_id row.id) s.agents ≡ some row =
        subst (λ i. find_row (is_agent i row.id) s.agents ≡ some row) at_t
          (subst (λ i. find_row (is_agent t i) s.agents ≡ some row) at_a e) in
      let same : row ≡ current = ground (arith, e, h) in
      (
        subst (λ r. find_row (is_agent r.tenant_id r.id) s.agents ≡ some r) same here,
        ground (arith, e, h),
      )
]

write_agent-inv :
    (env : Environment) (u : String) (v : ℕ) (kind type : String) (payload : Agent → Payload)
    (changed : Agent) (s s' : OrganizationStore) (params : UpdateAgentParams)
    → write_agent env u v kind type payload changed s ≡ ok (params, s')
    → (params.agent ≡ bumped env.now changed) × (s' ≡ s)
unfolding write_agent new_outbox_event
write_agent-inv env u v kind type payload changed s s' params h = ground (arith, h)

-- A request that changed what it read, and wrote it.
pub written :
    (env : Environment) (u : String) (v : ℕ) (kind type : String) (payload : Agent → Payload)
    (s s' : OrganizationStore) (params : UpdateAgentParams) (allowed : Agent → Bool)
    (set : Agent → Agent → Agent) (changed current : Agent)
    → find_row (is_agent current.tenant_id current.id) s.agents ≡ some current
    → allowed current ≡ true
    → bumped env.now changed ≡ set (bumped env.now changed) current
    → (changed.tenant_id ≡ current.tenant_id) × (changed.id ≡ current.id)
    → write_agent env u v kind type payload changed s ≡ ok (params, s')
    → IsChangeOfRead allowed set params.agent s
written env u v kind type payload s s' params allowed set changed current found fine fits
      (same_t, same_a) h =
    let (it, _) = write_agent-inv env u v kind type payload changed s s' params h in
    subst (λ a. IsChangeOfRead allowed set a s) (sym it)
      (current, rw (same_t, same_a) found, sym fits, fine)

pub throw_if-inv {ℓ} :
    {A : Type ℓ} (b : Bool) (e : Error) (f : Tx A) (s : OrganizationStore)
    (x : A × OrganizationStore)
    → (throw_if b e >> f) s ≡ ok x
    → (b ≡ false) × (f s ≡ ok x)
throw_if-inv true e f s x h = cc
throw_if-inv false e f s x h = (refl, h)

module _ (env : Environment) (s s' : OrganizationStore) (params : UpdateAgentParams) where
  -- The first steps of each request on an agent.
  pub checked-inv :
      (u t a : String) (p : Permission) (refused : Agent → Bool) (f : Agent → Tx UpdateAgentParams)
      → (read_agent env u t a p >>= λ current.
            throw_if (refused current) invalid_transition >> f current)
          s
        ≡ ok (params, s')
      → (current : Agent) × (find_row (is_agent current.tenant_id current.id) s.agents
          ≡ some current)
        × (refused current ≡ false)
        × (f current s ≡ ok (params, s'))
  checked-inv u t a p refused f h =
      let (current, s1, read, h1) =
        continue-inv (read_agent env u t a p s)
          (λ current. throw_if (refused current) invalid_transition >> f current) (params, s') h in
      let (found, same) = read_agent-inv env u t a p s s1 current read in
      let (fine, rest) =
        throw_if-inv (refused current) invalid_transition (f current) s1 (params, s') h1 in
      (current, found, fine, subst (λ x. f current x ≡ ok (params, s')) same rest)

  pub status-IsChangeOfRead :
      (allowed : AgentStatus → Bool) (target : AgentStatus) (kind type : String)
      (input : LifecycleInput)
      → prepare_status env allowed target kind type input s ≡ ok (params, s')
      → IsChangeOfRead (λ r. allowed r.status) with_status params.agent s
  unfolding prepare_status
  status-IsChangeOfRead allowed target kind type input h =
      let (current, found, fine, rest) =
        checked-inv input.actor_user_id input.tenant_id input.agent_id
          permission_agent_lifecycle_manage (λ r. not (allowed r.status))
          (λ r.
            write_agent env input.actor_user_id input.expected_version kind type
              (λ agent. agent_lifecycle_changed agent r.status input.actor_user_id)
              (record r { status = target }))
          h in
      written env input.actor_user_id input.expected_version kind type
        (λ agent. agent_lifecycle_changed agent current.status input.actor_user_id) s s' params
        (λ r. allowed r.status) with_status (record current { status = target }) current found
        (ground (arith, fine)) refl (refl, refl) rest

  pub delete-IsChangeOfRead :
      (input : LifecycleInput)
      → prepare_delete_agent env input s ≡ ok (params, s')
      → IsChangeOfRead (λ r. can_delete r.status) with_deleted params.agent s
  unfolding prepare_delete_agent
  delete-IsChangeOfRead input h =
      let gone = λ (r : Agent). record r { status = deleted; deleted_at = some env.now } in
      let (current, found, fine, rest) =
        checked-inv input.actor_user_id input.tenant_id input.agent_id permission_agent_delete
          (λ r. not (can_delete r.status))
          (λ r.
            write_agent env input.actor_user_id input.expected_version "deleted" "agent.deleted"
              (λ agent. agent_deleted agent input.actor_user_id env.now) (gone r))
          h in
      written env input.actor_user_id input.expected_version "deleted" "agent.deleted"
        (λ agent. agent_deleted agent input.actor_user_id env.now) s s' params
        (λ r. can_delete r.status) with_deleted (gone current) current found (ground (arith, fine))
        refl (refl, refl) rest

  pub manager-IsChangeOfRead :
      (input : SetAgentManagerInput)
      → prepare_set_agent_manager env input s ≡ ok (params, s')
      → IsChangeOfRead (λ r. not (is_deleted r.status)) with_manager params.agent s
  unfolding prepare_set_agent_manager
  manager-IsChangeOfRead input h =
      let write = λ (r : Agent).
        write_agent env input.actor_user_id input.expected_version "manager_changed"
          "agent.manager_changed"
          (λ agent. agent_manager_changed agent r.manager_agent_id input.actor_user_id)
          (record r { manager_agent_id = input.manager_agent_id }) in
      let body =
        read_agent env input.actor_user_id input.tenant_id input.agent_id
          permission_agent_hierarchy_manage
        >>= λ r. throw_if (is_deleted r.status) invalid_transition >> write r in
      let (_, _, h1) =
        lift-inv
          (validate_uuids env.libraries
            (input.actor_user_id ∷ input.tenant_id ∷ input.agent_id ∷ []))
          _ s (params, s') h in
      let (_, _, h2) =
        lift-inv (validate_uuids env.libraries (to_list input.manager_agent_id)) _ s (params, s')
          h1 in
      let (_, h3) =
        throw_if-inv (is_manager input.agent_id input.manager_agent_id) hierarchy_cycle body s
          (params, s') h2 in
      let (current, found, fine, rest) =
        checked-inv input.actor_user_id input.tenant_id input.agent_id
          permission_agent_hierarchy_manage (λ r. is_deleted r.status) write h3 in
      written env input.actor_user_id input.expected_version "manager_changed"
        "agent.manager_changed"
        (λ agent. agent_manager_changed agent current.manager_agent_id input.actor_user_id) s s'
        params (λ r. not (is_deleted r.status)) with_manager
        (record current { manager_agent_id = input.manager_agent_id }) current found
        (ground (arith, fine)) refl (refl, refl) rest
