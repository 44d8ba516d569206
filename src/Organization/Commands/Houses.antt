-- ===== src/Organization/Commands/Houses.antt =====
-- The companies of the agents: an agent that is not deleted stands in an active company.
pub mod Occupied
use mathlib.Core.Option.{some-injective}
use gereh.Prelude.{
  Bool-cases, Option-cases, is_some, any_of, find_row, update_where, find_row-append,
  any_of-find_row, find_row-appended, string_eq, String, ◌≡◌, refl, sym, ap, ◌∙◌, subst, inl, inr,
  Bool, true, false, none, some, List, [], ◌∷◌, ◌++◌, arith, nat_eq,
}
use gereh.Organization.Model.{is_deleted, Company, Agent}
use gereh.Organization.Store.{OrganizationStore, is_agent, is_live}
use gereh.Organization.Agents.{CreateAgentParams, UpdateAgentParams, inserted}
use gereh.Organization.Agents.Inversion.{is_open, CreatedAgent, UpdatedAgent}
use gereh.Organization.Commands.Rows.{
  IsConsistent, KeepsKeys, IsConsistent-update, IsConsistent-append,
}
use gereh.Organization.Commands.Hierarchies.{selected, row_after}
use gereh.Organization.Companies.{UpdateCompanyParams, with_company_archived}
use gereh.Organization.Companies.Inversion.{ChangedCompany}

abbrev pub has_open : List Company → String → String → Bool
has_open companies t c = is_some (find_row (is_open t c) companies)

-- Tables of agents that pass their constraints, and in which each agent that is not deleted belongs
-- to an active company.
pub record AreHoused (s : OrganizationStore) : Type 0 where
  pub consistent : IsConsistent s.agents
  pub housed :
      (t a : String) (row : Agent)
      → find_row (is_agent t a) s.agents ≡ some row
      → is_deleted row.status ≡ false
      → has_open s.companies row.tenant_id row.company_id ≡ true

pub open-append :
    (p : Company → Bool) (xs ys : List Company)
    → is_some (find_row p xs) ≡ true
    → is_some (find_row p (xs ++ ys)) ≡ true
open-append p xs ys h = elim (Option-cases (find_row p xs)) [
  | inl e ↦ absurd (ground (arith, e, h))
  | inr (r, e) ↦ ap is_some (find_row-append p xs ys r e)
]

-- Rows that the update leaves, or that pass after it too, are found after it.
pub open-update :
    (p sel : Company → Bool) (f : Company → Company) (xs : List Company)
    → ((x : Company) → p x ≡ true → sel x ≡ true → p (f x) ≡ true)
    → is_some (find_row p xs) ≡ true
    → is_some (find_row p (update_where sel f xs)) ≡ true
unfolding find_row update_where
open-update p sel f [] keep h = h
open-update p sel f (x ∷ xs) keep h = ground (arith, keep x, h, open-update p sel f xs keep)

-- A change of agents whose rows keep their company, and come to life nowhere.
pub updated-AreHoused :
    (change : Agent → Agent) (keys : KeepsKeys change) (params : UpdateAgentParams)
    (s s' : OrganizationStore) (inv : UpdatedAgent change params s s')
    → ((t a : String) (row : Agent)
        → find_row (is_agent t a) s.agents ≡ some row
        → selected change keys params s s' inv row ≡ true
        → is_deleted (change row).status ≡ false
        → is_deleted row.status ≡ false)
    → AreHoused s
    → AreHoused s'
updated-AreHoused change keys params s s' inv dead old = record {
  consistent = IsConsistent-update change keys params s s' inv old.consistent;
  housed = λ t a row' e' live.
      let stays = λ (r : Agent). has_open s'.companies r.tenant_id r.company_id ≡ true in
      let alive = λ (r : Agent). is_deleted r.status ≡ false in
      elim (Option-cases (find_row (is_agent t a) s.agents)) [
        | inl e ↦ absurd (ground (arith, row_after change keys params s s' inv t a none e, e'))
        | inr (row, e) ↦ elim (Bool-cases (selected change keys params s s' inv row)) [
          | inl k ↦
              let same : change row ≡ row' = some-injective _ _ (
                sym (
                  row_after change keys params s s' inv t a (some row) e
                  ∙ ap some {y = change row} (rw k refl))
                ∙ e') in
              subst stays same (
                rw (inv.companies_after, keys.tenant_kept row, keys.company_kept row)
                  (old.housed t a row e (dead t a row e k (subst alive (sym same) live))))
          | inr k ↦
              let same : row ≡ row' = some-injective _ _ (
                sym (
                  row_after change keys params s s' inv t a (some row) e
                  ∙ ap some {y = row} (rw k refl))
                ∙ e') in
              subst stays same
                (rw inv.companies_after (old.housed t a row e (subst alive (sym same) live)))
        ]
      ];
}

-- The tables of agents stay, and companies that have agents stay active.
pub companies-AreHoused :
    (s s' : OrganizationStore)
    → s'.agents ≡ s.agents
    → ((t a : String) (row : Agent)
        → find_row (is_agent t a) s.agents ≡ some row
        → is_deleted row.status ≡ false
        → has_open s.companies row.tenant_id row.company_id ≡ true
        → has_open s'.companies row.tenant_id row.company_id ≡ true)
    → AreHoused s
    → AreHoused s'
companies-AreHoused s s' same keep old = record {
  consistent = subst IsConsistent (sym same) old.consistent;
  housed = λ t a row e live.
      let at : find_row (is_agent t a) s.agents ≡ some row =
        subst (λ xs. find_row (is_agent t a) xs ≡ some row) same e in
      keep t a row at live (old.housed t a row at live);
}

pub closed-AreHoused :
    (params : UpdateCompanyParams) (s s' : OrganizationStore)
    → any_of (is_live params.company.tenant_id params.company.id) s.agents ≡ false
    → ChangedCompany (with_company_archived params.company) params s s'
    → AreHoused s
    → AreHoused s'
closed-AreHoused params s s' empty inv =
    companies-AreHoused s s' inv.agents_after (λ t a row e live there. rw inv.companies_after (
      open-update (is_open row.tenant_id row.company_id) _ (with_company_archived params.company)
        s.companies
        (λ x k sel.
          let t0 = params.company.tenant_id in
          let c0 = params.company.id in
          let in_t : row.tenant_id ≡ t0 =
            sym ((string_eq.same_iff x.tenant_id row.tenant_id).0 (ground (arith, k)))
            ∙ (string_eq.same_iff x.tenant_id t0).0 (ground (arith, sel)) in
          let in_c : row.company_id ≡ c0 =
            sym ((string_eq.same_iff x.id row.company_id).0 (ground (arith, k)))
            ∙ (string_eq.same_iff x.id c0).0 (ground (arith, sel)) in
          let lives = any_of-find_row (is_live t0 c0) (is_agent t a) s.agents row e (
            ground (
              arith,
              live,
              (string_eq.same_iff row.tenant_id t0).1 in_t,
              (string_eq.same_iff row.company_id c0).1 in_c,
            )) in
          absurd (ground (arith, lives, empty)))
        there))

pub created-AreHoused :
    (params : CreateAgentParams) (s s' : OrganizationStore)
    → CreatedAgent params s s'
    → AreHoused s
    → AreHoused s'
created-AreHoused params s s' inv old = record {
  consistent = IsConsistent-append params s s' inv old.consistent;
  housed = λ t a row e live.
      elim (find_row-appended (is_agent t a) s.agents (inserted params.agent) row
        (sym (ap (find_row (is_agent t a)) inv.agents_after) ∙ e)) [
          | inl at ↦ rw inv.companies_after (old.housed t a row at live)
          | inr (_, _, same) ↦
              subst (λ (r : Agent). has_open s'.companies r.tenant_id r.company_id ≡ true) same
                (rw inv.companies_after inv.company_found)
        ];
}
