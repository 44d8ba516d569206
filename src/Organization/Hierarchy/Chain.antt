-- ===== src/Organization/Hierarchy/Chain.antt =====
-- The chain of managers: it has exactly those that can be reached, for the fuel that it is given.
use mathlib.Core.Option.{some-injective}
use gereh.Prelude.{
  Bool-cases, Option-cases, is_some, length, find_row, count_where, count_where_mono,
  find_row-satisfies, ◌==◌, string_eq, eq_refl, contains, ℕ, zero, suc, ◌≤◌, ◌<◌, String, ◌≡◌, refl,
  sym, ap, ◌∙◌, subst, ◌↔◌, inl, inr, Bool, true, false, not, Option, none, some, List, [], ◌∷◌,
  arith, nat_eq,
}
use gereh.Organization.Model.{Agent}
use gereh.Organization.Hierarchy.{
  live_agent, live_manager, manager_of, manager_chain, hierarchy_would_cycle,
}

-- A row that fails the narrower test makes its count smaller.
count_where-lt {ℓ} :
    {A : Type ℓ} (p q r : A → Bool) (xs : List A) (x : A)
    → ((y : A) → q y ≡ true → p y ≡ true)
    → find_row r xs ≡ some x
    → p x ≡ true
    → q x ≡ false
    → count_where q xs < count_where p xs
unfolding count_where find_row
count_where-lt p q r [] x sub at px qx = cc
count_where-lt p q r (y ∷ xs) x sub at px qx = elim (Bool-cases (r y)) [
  | inl hit ↦
      let same : y ≡ x = some-injective _ _ (sym (rw hit refl) ∙ at) in
      ground (arith, ap p same, ap q same, px, qx, count_where_mono q p xs sub)
  | inr miss ↦ ground (arith, sub y, miss, at, px, qx, count_where-lt p q r xs x sub)
]

count_where-le-length {ℓ} : {A : Type ℓ} (p : A → Bool) (xs : List A) → count_where p xs ≤ length xs
unfolding count_where
count_where-le-length p [] = omega arith
count_where-le-length p (x ∷ xs) = ground (arith, count_where-le-length p xs)

module _ (tenant_id company_id : String) (agents : List Agent) where
  -- The agents that are met on the way up from one, itself included.
  pub data Leads (a : String) : String → Type 0 where
    here : Leads a a
    next :
        {b m : String} → Leads a b → manager_of tenant_id company_id agents b ≡ some m → Leads a m

  live_manager-inv :
      (o : Option Agent) (row : Agent)
      → live_manager tenant_id company_id agents o ≡ some row
      → (x : String) × (live_agent tenant_id company_id agents x ≡ some row)
  live_manager-inv none row h = cc
  live_manager-inv (some from) row h = elim (Option-cases from.manager_agent_id) [
    | inl e ↦ absurd (ground (arith, e, h))
    | inr (x, e) ↦ (x, ground (arith, e, h))
  ]

  -- A manager is a row of the table.
  manager_row :
      (a m : String)
      → manager_of tenant_id company_id agents a ≡ some m
      → (x : String) × (row : Agent) × (live_agent tenant_id company_id agents x ≡ some row)
        × (row.id ≡ m)
  unfolding manager_of
  manager_row a m h =
      let from =
        live_manager tenant_id company_id agents (live_agent tenant_id company_id agents a) in
      elim (Option-cases from) [
        | inl e ↦ absurd (ground (arith, e, h))
        | inr (row, e) ↦
            let (x, at) = live_manager-inv (live_agent tenant_id company_id agents a) row e in
            (x, row, at, ground (arith, e, h))
      ]

  -- The rows that a walk has not visited.
  unvisited : List String → ℕ
  unvisited visited = count_where (λ row. not (contains visited row.id)) agents

  -- Whether the managers of all but one of the visited are visited.
  abbrev Closed : List String → String → Type 0
  Closed visited a =
      (v m : String)
      → contains visited v ≡ true
      → (v == a) ≡ false
      → manager_of tenant_id company_id agents v ≡ some m
      → contains visited m ≡ true

  visit-lt :
      (visited : List String) (a m : String)
      → manager_of tenant_id company_id agents a ≡ some m
      → contains visited m ≡ false
      → unvisited (m ∷ visited) < unvisited visited
  unfolding unvisited live_agent
  visit-lt visited a m h fresh =
      let (x, row, at, same) = manager_row a m h in
      count_where-lt (λ r. not (contains visited r.id)) (λ r. not (contains (m ∷ visited) r.id)) _
        agents row (λ y k. ground arith) at (ground (arith, ap (contains visited) same, fresh))
        (ground (arith, (string_eq.same_iff row.id m).1 same))

  chain-keeps :
      (fuel : ℕ) (visited : List String) (a v : String)
      → contains visited v ≡ true
      → contains (manager_chain tenant_id company_id agents fuel visited a) v ≡ true
  unfolding manager_chain
  chain-keeps zero visited a v h = h
  chain-keeps (suc fuel) visited a v h =
      elim (Option-cases (manager_of tenant_id company_id agents a)) [
        | inl e ↦ ground (arith, e, h)
        | inr (m, e) ↦ ground (arith, e, h, chain-keeps fuel (m ∷ visited) m v)
      ]

  -- If the manager of the one left out is visited too, all are.
  managers_visited :
      (visited more : List String) (a : String)
      → Closed visited a
      → ((v : String) → contains visited v ≡ true → contains more v ≡ true)
      → ((b : String) → manager_of tenant_id company_id agents a ≡ some b → contains more b ≡ true)
      → (v m : String) → contains visited v ≡ true
      → manager_of tenant_id company_id agents v ≡ some m
      → contains more m ≡ true
  managers_visited visited more a closed wider own v m h e = elim (Bool-cases (v == a)) [
    | inl same ↦ own m (rw (← (string_eq.same_iff v a).0 same) e)
    | inr differs ↦ wider m (closed v m h differs e)
  ]

  -- With a unit of fuel for each row that is not visited, the chain is closed.
  chain-Closed :
      (fuel : ℕ) (visited : List String) (a v m : String)
      → unvisited visited ≤ fuel
      → contains visited a ≡ true
      → Closed visited a
      → contains (manager_chain tenant_id company_id agents fuel visited a) v ≡ true
      → manager_of tenant_id company_id agents v ≡ some m
      → contains (manager_chain tenant_id company_id agents fuel visited a) m ≡ true
  unfolding manager_chain
  chain-Closed zero visited a v m enough at closed h e = elim (Bool-cases (contains visited m)) [
    | inl seen ↦ seen
    | inr fresh ↦ absurd (omega (arith, enough, visit-lt visited v m e fresh))
  ]
  chain-Closed (suc fuel) visited a v m enough at closed h e =
      elim (Option-cases (manager_of tenant_id company_id agents a)) [
        | inl top ↦ ground (
          arith,
          top,
          h,
          e,
          managers_visited visited visited a closed (λ w k. k)
              (λ b k. absurd (ground (arith, top, k))) v m,
        )
        | inr (b, up) ↦ elim (Bool-cases (contains visited b)) [
          | inl seen ↦ ground (
            arith,
            up,
            seen,
            h,
            e,
            managers_visited visited visited a closed (λ w k. k)
                (λ b' k. rw (some-injective _ _ (sym k ∙ up)) seen) v m,
          )
          | inr fresh ↦
              let shorter = visit-lt visited a b up fresh in
              let closed' : Closed (b ∷ visited) b = λ w m' k differs e'.
                managers_visited visited (b ∷ visited) a closed (λ w' k'. ground (arith, k'))
                  (λ b' k'. rw (some-injective _ _ (sym k' ∙ up)) (ground (arith, eq_refl b))) w m'
                  (ground (arith, k, differs)) e' in
              ground (
                arith,
                up,
                fresh,
                h,
                chain-Closed fuel (b ∷ visited) b v m (omega (arith, shorter, enough))
                    (ground (arith, eq_refl b)) closed',
                e,
              )
        ]
      ]

  chain-Leads :
      (bottom : String) (fuel : ℕ) (visited : List String) (a v : String)
      → Leads bottom a
      → ((w : String) → contains visited w ≡ true → Leads bottom w)
      → contains (manager_chain tenant_id company_id agents fuel visited a) v ≡ true
      → Leads bottom v
  unfolding manager_chain
  chain-Leads bottom zero visited a v to_a all h = all v h
  chain-Leads bottom (suc fuel) visited a v to_a all h =
      elim (Option-cases (manager_of tenant_id company_id agents a)) [
        | inl top ↦ all v (ground (arith, top, h))
        | inr (b, up) ↦ elim (Bool-cases (contains visited b)) [
          | inl seen ↦ all v (ground (arith, up, seen, h))
          | inr fresh ↦
              chain-Leads bottom fuel (b ∷ visited) b v (next to_a up)
                (λ w k. elim (Bool-cases (w == b)) [
                  | inl same ↦ rw ((string_eq.same_iff w b).0 same) (next to_a up)
                  | inr differs ↦ all w (ground (arith, k, differs))
                ])
                (ground (arith, up, fresh, h))
        ]
      ]

  module _ (agent_id manager_id : String) (row : Agent)
      (found : live_agent tenant_id company_id agents manager_id ≡ some row) where
    abbrev chain : List String
    chain = manager_chain tenant_id company_id agents (length agents) (row.id ∷ []) row.id

    found_id : row.id ≡ manager_id
    unfolding live_agent
    found_id =
        (string_eq.same_iff row.id manager_id).0
          (ground (arith, find_row-satisfies _ agents row found))

    chain-holds : (v : String) → Leads row.id v → contains chain v ≡ true
    unfolding unvisited
    chain-holds v here =
        chain-keeps (length agents) (row.id ∷ []) row.id row.id (ground (arith, eq_refl row.id))
    chain-holds v (next {b} below up) =
        chain-Closed (length agents) (row.id ∷ []) row.id b v (count_where-le-length _ agents)
          (ground (arith, eq_refl row.id)) (λ w m k differs e. absurd (ground (arith, k, differs)))
          (chain-holds b below) up

  pub hierarchy_would_cycle-Leads :
      (agent_id manager_id : String)
      → (hierarchy_would_cycle tenant_id company_id agents agent_id manager_id ≡ true) ↔ (
          (is_some (live_agent tenant_id company_id agents manager_id) ≡ true)
          × Leads manager_id agent_id)
  unfolding hierarchy_would_cycle
  hierarchy_would_cycle-Leads agent_id manager_id =
      elim (Option-cases (live_agent tenant_id company_id agents manager_id)) [
        | inl e ↦ (λ h. absurd (ground (arith, e, h)), λ h. absurd (ground (arith, e, h.0)))
        | inr (row, e) ↦
            let id = found_id agent_id manager_id row e in
            (
              λ h. (
                ground (arith, e),
                subst (λ i. Leads i agent_id) id
                    (chain-Leads row.id (length agents) (row.id ∷ []) row.id agent_id here
                      (λ w k.
                        subst (Leads row.id)
                          (sym ((string_eq.same_iff w row.id).0 (ground (arith, k)))) here)
                      (ground (arith, e, h))),
              ),
              λ h.
                  let there =
                    chain-holds agent_id manager_id row e agent_id
                      (subst (λ i. Leads i agent_id) (sym id) h.1) in
                  ground (arith, e, there),
            )
      ]
