-- ===== src/Organization/Hierarchy/View.antt =====
-- In a table with unique ids, the hierarchy of a company depends on what an id says of its agent.
use gereh.Prelude.{
  if◌then◌else◌, Option-cases, find_row, count_where, find_row-satisfies, count_where-find_row,
  string_eq, ◌≤◌, String, ◌≡◌, refl, inl, inr, Bool, true, ◌&&◌, Option, none, some, List, [], ◌∷◌,
  arith, nat_eq,
}
use gereh.Organization.Model.{Agent}
use gereh.Organization.Store.{is_agent, is_live}
use gereh.Organization.Hierarchy.{names, live_agent, manager_of}

-- Whether an agent takes part in a company's hierarchy, and its manager.
abbrev pub seen_as : String → String → Option Agent → Option (Option String)
seen_as t c none = none
seen_as t c (some row) = if is_live t c row then some row.manager_agent_id else none

abbrev pub view : String → String → List Agent → String → Option (Option String)
view t c agents a = seen_as t c (find_row (is_agent t a) agents)

abbrev pub OneAgent : List Agent → Type 0
OneAgent agents = (t a : String) → count_where (is_agent t a) agents ≤ 1

-- The manager, if it takes part.
abbrev pub if_seen : Option (Option String) → String → Option String
if_seen none m = none
if_seen (some x) m = some m

abbrev pub manager_by : (String → Option (Option String)) → Option (Option String) → Option String
manager_by look none = none
manager_by look (some none) = none
manager_by look (some (some m)) = if_seen (look m) m

-- A narrower test finds the row of a key, if the row passes it.
pub find_row-narrow {ℓ} :
    {A : Type ℓ} (p q : A → Bool) (xs : List A)
    → ((x : A) → q x ≡ true → p x ≡ true)
    → count_where p xs ≤ 1
    → find_row q xs ≡ elim (find_row p xs) [ none ↦ none | some x ↦ if q x then some x else none ]
unfolding find_row count_where
find_row-narrow p q [] sub one = refl
find_row-narrow p q (x ∷ xs) sub one = elim (Option-cases (find_row p xs)) [
  | inl e ↦ ground (arith, e, sub x, find_row-narrow p q xs sub, one)
  | inr (y, e) ↦ ground (
    arith,
    e,
    sub x,
    find_row-narrow p q xs sub,
    one,
    count_where-find_row p p xs y e (find_row-satisfies p xs y e),
  )
]

module _ (t c : String) (agents : List Agent) (one : OneAgent agents) where
  pub live_agent-view :
      (a : String)
      → live_agent t c agents a ≡ elim (find_row (is_agent t a) agents) [
        | none ↦ none
        | some row ↦ if is_live t c row then some row else none
      ]
  unfolding live_agent
  live_agent-view a = elim (Option-cases (find_row (is_agent t a) agents)) [
    | inl e ↦ ground (
      arith,
      e,
      find_row-narrow (is_agent t a) (λ row. is_live t c row && names a row) agents
          (λ x k. ground arith) (one t a),
    )
    | inr (row, e) ↦ ground (
      arith,
      e,
      find_row-satisfies (is_agent t a) agents row e,
      find_row-narrow (is_agent t a) (λ x. is_live t c x && names a x) agents (λ x k. ground arith)
          (one t a),
    )
  ]

  pub manager_of-view :
      (a : String) → manager_of t c agents a ≡ manager_by (view t c agents) (view t c agents a)
  unfolding manager_of
  manager_of-view a = elim (Option-cases (find_row (is_agent t a) agents)) [
    | inl e ↦ ground (arith, e, live_agent-view a)
    | inr (row, e) ↦ elim (Option-cases row.manager_agent_id) [
      | inl e2 ↦ ground (arith, e, e2, live_agent-view a)
      | inr (m, e2) ↦ elim (Option-cases (find_row (is_agent t m) agents)) [
        | inl e3 ↦ ground (arith, e, e2, e3, live_agent-view a, live_agent-view m)
        | inr (row', e3) ↦ ground (
          arith,
          e,
          e2,
          e3,
          live_agent-view a,
          live_agent-view m,
          find_row-satisfies (is_agent t m) agents row' e3,
          string_eq.same_iff row'.id m,
        )
      ]
    ]
  ]
