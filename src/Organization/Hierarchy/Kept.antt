-- ===== src/Organization/Hierarchy/Kept.antt =====
-- What keeps a hierarchy a forest, by what the ids say of the agents before and after a change.
use mathlib.Core.Option.{some-injective}
use gereh.Prelude.{
  Option-cases, is_some, ◌==◌, String, ◌≡◌, refl, sym, ap, ◌∙◌, subst, ◌⊎◌, inl, inr, true, false,
  Option, none, some, List, arith, string_eq, nat_eq,
}
use gereh.Organization.Model.{Agent}
use gereh.Organization.Hierarchy.Chain.{Leads}
use gereh.Organization.Hierarchy.Forest.{IsForest, IsForest-fewer, IsForest-link}
use gereh.Organization.Hierarchy.View.{view, OneAgent, if_seen, manager_by, manager_of-view}
use gereh.Organization.Hierarchy.{manager_of}

abbrev Look : Type 0
Look = String → Option (Option String)

-- A manager takes part.
pub manager_seen :
    (look : Look) (x : Option (Option String)) (m : String)
    → manager_by look x ≡ some m
    → is_some (look m) ≡ true
manager_seen look none m h = cc
manager_seen look (some none) m h = cc
manager_seen look (some (some i)) m h = elim (Option-cases (look i)) [
  | inl e ↦ absurd (ground (arith, e, h))
  | inr (v, e) ↦
      let same : i ≡ m = some-injective _ _ (sym (ap (λ w. if_seen w i) e) ∙ h) in
      subst (λ j. is_some (look j) ≡ true) same (ap is_some e)
]

manager_by-same :
    (look look' : Look) (x : Option (Option String))
    → ((m : String) → x ≡ some (some m) → is_some (look' m) ≡ is_some (look m))
    → manager_by look' x ≡ manager_by look x
manager_by-same look look' none same = refl
manager_by-same look look' (some none) same = refl
manager_by-same look look' (some (some m)) same = elim (Option-cases (look m)) [
  | inl e ↦ elim (Option-cases (look' m)) [
    | inl e' ↦ ground (arith, e, e')
    | inr (w, e') ↦ absurd (ground (arith, e, e', same m refl))
  ]
  | inr (v, e) ↦ elim (Option-cases (look' m)) [
    | inl e' ↦ absurd (ground (arith, e, e', same m refl))
    | inr (w, e') ↦ ground (arith, e, e')
  ]
]

manager_by-fewer :
    (look look' : Look) (x : Option (Option String))
    → ((a : String) → (look' a ≡ look a) ⊎ (look' a ≡ none))
    → (manager_by look' x ≡ manager_by look x) ⊎ (manager_by look' x ≡ none)
manager_by-fewer look look' none fewer = inl refl
manager_by-fewer look look' (some none) fewer = inl refl
manager_by-fewer look look' (some (some m)) fewer = elim (fewer m) [
  | inl same ↦ inl (ap (λ v. if_seen v m) same)
  | inr gone ↦ inr (ap (λ v. if_seen v m) gone)
]

under_manager :
    (look : Look) (manager : Option String) (m : String)
    → manager_by look (some manager) ≡ some m
    → manager ≡ some m
under_manager look none m by = cc
under_manager look (some i) m by = elim (Option-cases (look i)) [
  | inl e ↦ absurd (ground (arith, e, by))
  | inr (v, e) ↦ sym (ap (λ w. if_seen w i) e) ∙ by
]

new_manager :
    (look : Look) (x : Option (Option String)) (manager : Option String) (m : String)
    → (x ≡ none) ⊎ (x ≡ some manager)
    → manager_by look x ≡ some m
    → manager ≡ some m
new_manager look x manager m (inl gone) by =
    absurd (ground (arith, sym (ap (manager_by look) gone) ∙ by))
new_manager look x manager m (inr it) by =
    under_manager look manager m (sym (ap (manager_by look) it) ∙ by)

module _ (t c : String) (old new : List Agent) (one : OneAgent old) (one' : OneAgent new) where
  -- If each agent is seen as before, or no longer, the hierarchy stays a forest.
  pub IsForest-seen :
      ((a : String) → (view t c new a ≡ view t c old a) ⊎ (view t c new a ≡ none))
      → IsForest t c old
      → IsForest t c new
  IsForest-seen fewer forest =
      IsForest-fewer t c old new
        (λ a.
          rw (manager_of-view t c new one' a, manager_of-view t c old one a)
            (elim (fewer a) [
              | inl same ↦
                  rw same (manager_by-fewer (view t c old) (view t c new) (view t c old a) fewer)
              | inr gone ↦ inr (rw gone refl)
            ]))
        forest

  manager_of-same :
      (a : String)
      → view t c new a ≡ view t c old a
      → ((m : String)
          → view t c old a ≡ some (some m)
          → is_some (view t c new m) ≡ is_some (view t c old m))
      → manager_of t c new a ≡ manager_of t c old a
  manager_of-same a same seen =
      rw (manager_of-view t c new one' a, manager_of-view t c old one a, same)
        (manager_by-same (view t c old) (view t c new) (view t c old a) seen)

  -- If one agent alone is seen in another way, the hierarchy stays a forest when the agent has come
  -- under a manager above whom it did not stand.
  pub IsForest-seen_but_one :
      (agent_id : String) (manager : Option String)
      → ((a : String) → (a == agent_id) ≡ false → view t c new a ≡ view t c old a)
      → ((a m : String)
          → (a == agent_id) ≡ false
          → view t c old a ≡ some (some m)
          → is_some (view t c new m) ≡ is_some (view t c old m))
      → (view t c new agent_id ≡ none) ⊎ (view t c new agent_id ≡ some manager)
      → ((m : String)
          → manager ≡ some m
          → is_some (view t c new m) ≡ true
          → ¬ Leads t c old m agent_id)
      → IsForest t c old
      → IsForest t c new
  IsForest-seen_but_one agent_id manager same seen it apart forest =
      let others = λ (a : String) (differs : (a == agent_id) ≡ false).
        manager_of-same a (same a differs) (λ m e. seen a m differs e) in
      elim (Option-cases (manager_of t c new agent_id)) [
        | inl e ↦ IsForest-link t c old new agent_id others agent_id (inl e) forest
        | inr (m, e) ↦
            let by : manager_by (view t c new) (view t c new agent_id) ≡ some m =
              sym (manager_of-view t c new one' agent_id) ∙ e in
            IsForest-link t c old new agent_id others m
              (inr (
                e,
                apart m (new_manager (view t c new) (view t c new agent_id) manager m it by)
                    (manager_seen (view t c new) (view t c new agent_id) m by),
              ))
              forest
      ]
