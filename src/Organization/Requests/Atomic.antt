-- ===== src/Organization/Requests/Atomic.antt =====
-- What every run of the service keeps, and what a request has when its write succeeds.
use mathlib.Core.Option.{some-injective}
use mathlib.Core.List.{List, Memᴰ, ◌∷◌}
use gereh.Prelude.{
  find_row, Result, ok, outcome, outcome-store, outcome-ok, ◌+◌, ◌≡◌, refl, sym, subst, true, some,
  List, ◌∷◌, arith, string_eq, nat_eq,
}
use gereh.Organization.Model.{Agent, Error}
use gereh.Organization.Store.{OrganizationStore, is_agent}
use gereh.Organization.Requests.{Request, prepare, IsRun, begin, write, admits}
use gereh.Organization.Requests.Sent.{
  Sends, creates, edits, moves, sets, drops, opens, bootstraps, describes, closes, prepare-Sends,
}
use gereh.Organization.Requests.Later.{IsLater, IsLater-refl, IsLater-trans, execute-IsLater}
use gereh.Organization.Agents.{
  UpdateAgentParams, with_settings, with_manager, with_status, with_deleted, update_agent_with,
  update_agent, change_agent_status, set_agent_manager, delete_agent,
}
use gereh.Organization.Requests.Revisions.{IsRecorded, replaced}
use gereh.Organization.Requests.Runs.{written_by, Sends-IsRecorded}
use gereh.Organization.Agents.Inversion.{UpdatedAgent, update_agent_with-inv}
use gereh.Organization.Agents.Managers.{set_agent_manager-inv, delete_agent-inv}
use gereh.Organization.Commands.{Command, execute}
use gereh.Organization.Commands.Rows.{KeepsKeys}
use gereh.Organization.Commands.Hierarchies.{settings_keys, status_keys, manager_keys, deleted_keys}
use gereh.Organization.Service.{Environment}
use gereh.Organization.Requests.Prepared.{IsChangeOfRead}

-- If the agents of the first store have their revisions, then in every run, in which requests read
-- and write in any order, the revisions of each agent of the last store reach from the first to the
-- version of its row without a gap, and the last of them holds exactly its row; and every agent of
-- each store before is still there, at the same or a greater version, and the same if it is at the
-- same version.
pub IsRun-IsRecorded :
    (first s : OrganizationStore) (before : List OrganizationStore)
    → IsRun first (s ∷ before)
    → IsRecorded first.agents first.revisions
    → IsRecorded s.agents s.revisions
      × ((read : OrganizationStore) → Memᴰ read (s ∷ before) → IsLater read.agents s.agents)
IsRun-IsRecorded first s before begin old = (
  old,
  λ read m. elim m [
    | Memᴰ.head same ↦ subst (λ x. IsLater x.agents s.agents) (sym same) (IsLater-refl s.agents)
    | Memᴰ.tail absent ↦ elim absent [ ]
  ],
)
IsRun-IsRecorded first s before (write {s = last} {read} {before = older} env request c run at made)
      old =
    let (recorded, later) = IsRun-IsRecorded first last older run old in
    (
      Sends-IsRecorded request read last (later read at) recorded c
          (prepare-Sends env request read read c made),
      λ x m. elim m [
        | Memᴰ.head same ↦
            subst (λ y. IsLater y.agents (execute c last).1.agents) (sym same)
              (IsLater-refl (execute c last).1.agents)
        | Memᴰ.tail among ↦
            IsLater-trans x.agents last.agents (execute c last).1.agents (later x among)
              (execute-IsLater c last)
      ],
    )

-- The agent that was checked is the one that is replaced.
abbrev pub Replaced : Request → Agent → OrganizationStore → OrganizationStore → Type 0
Replaced request agent s s' =
    (current : Agent) × (find_row (is_agent agent.tenant_id agent.id) s.agents ≡ some current)
    × (admits request current ≡ true)
    × (find_row (is_agent agent.tenant_id agent.id) s'.agents ≡ some agent)

module _ (request : Request) (read s : OrganizationStore) (later : IsLater read.agents s.agents)
    (old : IsRecorded s.agents s.revisions) where
  update-Replaced :
      (set : Agent → Agent → Agent) (keys : (n : Agent) → KeepsKeys (set n))
      (bump : (n r : Agent) → (set n r).version ≡ r.version + 1) (params : UpdateAgentParams)
      (x : Result Error Agent × OrganizationStore)
      → ((a : Agent) → x ≡ (ok a, x.1) → UpdatedAgent (set params.agent) params s x.1)
      → IsChangeOfRead (admits request) set params.agent read
      → (outcome x).0 ≡ ok tt
      → (agent : Agent) → some params.agent ≡ some agent
      → Replaced request agent s (outcome x).1
  update-Replaced set keys bump params x done change succeeded agent e =
      let (a, h) = outcome-ok x succeeded in
      let (current, at, fine, now, _) =
        replaced (admits request) set keys bump params read s x.1 (done a h) later old change in
      subst (λ y. Replaced request y s (outcome x).1) (some-injective _ _ e)
        (current, at, fine, rw (outcome-store x) now)

  Sends-Replaced :
      (c : Command)
      → Sends request read c
      → (execute c s).0 ≡ ok tt
      → (agent : Agent) → written_by c ≡ some agent
      → Replaced request agent s (execute c s).1
  unfolding execute update_agent set_agent_manager change_agent_status delete_agent
      update_agent_with
  Sends-Replaced c (creates params one new) h agent e = absurd (ground (arith, e))
  Sends-Replaced c (edits params change) h agent e =
      update-Replaced with_settings settings_keys (λ n r. refl) params (update_agent params s)
        (λ r k. update_agent_with-inv (with_settings params.agent) params s _ r k) change h agent e
  Sends-Replaced c (moves params change) h agent e =
      update-Replaced with_manager manager_keys (λ n r. refl) params (set_agent_manager params s)
        (λ r k. (set_agent_manager-inv params s _ r k).1) change h agent e
  Sends-Replaced c (sets params change) h agent e =
      update-Replaced with_status status_keys (λ n r. refl) params (change_agent_status params s)
        (λ r k. update_agent_with-inv (with_status params.agent) params s _ r k) change h agent e
  Sends-Replaced c (drops params change) h agent e =
      update-Replaced with_deleted deleted_keys (λ n r. refl) params (delete_agent params s)
        (λ r k. (delete_agent-inv params s _ r k).1) change h agent e
  Sends-Replaced c (opens params) h agent e = absurd (ground (arith, e))
  Sends-Replaced c (bootstraps params) h agent e = absurd (ground (arith, e))
  Sends-Replaced c (describes params) h agent e = absurd (ground (arith, e))
  Sends-Replaced c (closes params) h agent e = absurd (ground (arith, e))

-- In a run whose first store has the revisions of its agents: if a request has read one of the
-- stores of the run and its write in the last one, whatever has been written in between, succeeds,
-- then the agent that it writes replaces one that the request admits: to pause it is ready,
-- degraded or failed, to resume it is paused, to delete it is a draft, paused or failed, and to
-- change it otherwise it is not deleted.
pub prepare-Replaced :
    (first read s : OrganizationStore) (before : List OrganizationStore) (env : Environment)
    (request : Request) (c : Command)
    → IsRecorded first.agents first.revisions
    → IsRun first (s ∷ before)
    → Memᴰ read (s ∷ before)
    → prepare env request read ≡ ok (some c, read)
    → (execute c s).0 ≡ ok tt
    → (agent : Agent) → written_by c ≡ some agent
    → Replaced request agent s (execute c s).1
prepare-Replaced first read s before env request c start run at made succeeded =
    let (recorded, later) = IsRun-IsRecorded first s before run start in
    Sends-Replaced request read s (later read at) recorded c
      (prepare-Sends env request read read c made) succeeded
