-- ===== src/Organization/Hierarchy/Forest.antt =====
-- Hierarchies in which every chain of managers ends, and what keeps them so.
use gereh.Prelude.{
  Bool-cases, ◌==◌, string_eq, String, ◌≡◌, sym, ◌∙◌, subst, ◌⊎◌, inl, inr, false, none, some, List,
  nat_eq,
}
use gereh.Organization.Model.{Agent}
use gereh.Organization.Hierarchy.{manager_of}
use gereh.Organization.Hierarchy.Chain.{Leads, here, next}

module _ (tenant_id company_id : String) (agents : List Agent) where
  -- The chain of managers from an agent ends.
  pub data HasTop : String → Type 0 where
    top : {a : String} → manager_of tenant_id company_id agents a ≡ none → HasTop a
    under : {a m : String} → manager_of tenant_id company_id agents a ≡ some m → HasTop m → HasTop a

-- So it does for all agents: the reporting lines of the company have no cycle.
abbrev pub IsForest : String → String → List Agent → Type 0
IsForest tenant_id company_id agents = (a : String) → HasTop tenant_id company_id agents a

module _ (t c : String) (old new : List Agent) where
  HasTop-fewer :
      ((a : String) → (manager_of t c new a ≡ manager_of t c old a) ⊎ (manager_of t c new a ≡ none))
      → (a : String) → HasTop t c old a
      → HasTop t c new a
  HasTop-fewer fewer a (top e) = elim (fewer a) [ inl same ↦ top (same ∙ e) | inr gone ↦ top gone ]
  HasTop-fewer fewer a (under {m = m} e rest) = elim (fewer a) [
    | inl same ↦ under (same ∙ e) (HasTop-fewer fewer m rest)
    | inr gone ↦ top gone
  ]

  -- If no line is new, nothing becomes a cycle.
  pub IsForest-fewer :
      ((a : String) → (manager_of t c new a ≡ manager_of t c old a) ⊎ (manager_of t c new a ≡ none))
      → IsForest t c old
      → IsForest t c new
  IsForest-fewer fewer forest a = HasTop-fewer fewer a (forest a)

  Leads-under :
      {a m b : String} → manager_of t c old a ≡ some m → Leads t c old m b → Leads t c old a b
  Leads-under e here = next here e
  Leads-under e (next below up) = next (Leads-under e below) up

  module _ (agent_id : String)
      (others : (a : String)
        → (a == agent_id) ≡ false
        → manager_of t c new a ≡ manager_of t c old a) where
    elsewhere : (a : String) → ¬ Leads t c old a agent_id → (a == agent_id) ≡ false
    elsewhere a apart = elim (Bool-cases (a == agent_id)) [
      | inl same ↦
          absurd (apart (subst (Leads t c old a) ((string_eq.same_iff a agent_id).0 same) here))
      | inr differs ↦ differs
    ]

    -- A chain that does not meet the agent is as it was.
    HasTop-apart : (a : String) → HasTop t c old a → ¬ Leads t c old a agent_id → HasTop t c new a
    HasTop-apart a (top e) apart = top (others a (elsewhere a apart) ∙ e)
    HasTop-apart a (under {m = m} e rest) apart =
        under (others a (elsewhere a apart) ∙ e)
          (HasTop-apart m rest (λ l. apart (Leads-under e l)))

    HasTop-joined : HasTop t c new agent_id → (a : String) → HasTop t c old a → HasTop t c new a
    HasTop-joined it a (top e) = elim (Bool-cases (a == agent_id)) [
      | inl same ↦ subst (HasTop t c new) (sym ((string_eq.same_iff a agent_id).0 same)) it
      | inr differs ↦ top (others a differs ∙ e)
    ]
    HasTop-joined it a (under {m = m} e rest) = elim (Bool-cases (a == agent_id)) [
      | inl same ↦ subst (HasTop t c new) (sym ((string_eq.same_iff a agent_id).0 same)) it
      | inr differs ↦ under (others a differs ∙ e) (HasTop-joined it m rest)
    ]

    -- An agent may get a manager above whom it does not stand.
    pub IsForest-link :
        (manager_id : String)
        → (manager_of t c new agent_id ≡ none)
          ⊎ ((manager_of t c new agent_id ≡ some manager_id) × ¬ Leads t c old manager_id agent_id)
        → IsForest t c old
        → IsForest t c new
    IsForest-link manager_id (inl none_at_all) forest a =
        HasTop-joined (top none_at_all) a (forest a)
    IsForest-link manager_id (inr (linked, apart)) forest a =
        HasTop-joined (under linked (HasTop-apart manager_id (forest manager_id) apart)) a
          (forest a)
