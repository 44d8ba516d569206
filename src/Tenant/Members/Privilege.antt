-- ===== src/Tenant/Members/Privilege.antt =====
-- Only an owner makes, demotes or removes an owner.
use gereh.Prelude.{
  keep_if, find_row, count_where, update_where, delete_where, ok, String, ◌≡◌, refl, Bool, true,
  false, ◌&&◌, some, List, [], ◌∷◌, arith, string_eq, nat_eq,
}
use gereh.Tenant.Model.{Role, is_owner, Membership}
use gereh.Tenant.Authorization.{can_manage_member}
use gereh.Tenant.Store.{Store, is_member, find_context-member}
use gereh.Tenant.Members.{
  UpdateMemberRoleParams, RemoveMemberParams, is_owner_of, with_role, update_member_role,
  remove_member,
}
use gereh.Tenant.Members.Inversion.{update_member_role-inv, remove_member-inv}
use gereh.Tenant.Members.Owners.{HasKeys, touched-none, deleted-none}

-- The rows of a tenant's owners.
abbrev pub owner_rows : String → Store → List Membership
owner_rows tenant_id s = keep_if (is_owner_of tenant_id) s.memberships

-- An actor who is not an owner passes the hierarchy check for neither an owner nor a new owner.
spares :
    (actor target new_role : Role)
    → can_manage_member actor target new_role ≡ true
    → is_owner actor ≡ false
    → (is_owner target ≡ false) × (is_owner new_role ≡ false)
unfolding can_manage_member
spares actor target new_role h k = ground arith

keep_if-untouched :
    (p q : Membership → Bool) (f : Membership → Membership) (xs : List Membership)
    → count_where (λ x. q x && p x) xs ≡ 0
    → ((x : Membership) → q x ≡ true → p (f x) ≡ false)
    → keep_if p (update_where q f xs) ≡ keep_if p xs
unfolding count_where update_where
keep_if-untouched p q f [] none_hit stays = refl
keep_if-untouched p q f (x ∷ xs) none_hit stays =
    ground (arith, stays x, keep_if-untouched p q f xs)

keep_if-undeleted :
    (p q : Membership → Bool) (xs : List Membership)
    → count_where (λ x. q x && p x) xs ≡ 0
    → keep_if p (delete_where q xs) ≡ keep_if p xs
unfolding count_where delete_where
keep_if-undeleted p q [] none_hit = refl
keep_if-undeleted p q (x ∷ xs) none_hit = ground (arith, keep_if-undeleted p q xs)

-- In a store whose keys are unique, for an actor whose membership of the tenant is not that of an
-- owner: a change of role that succeeds leaves the rows of the owners of every tenant as they were.
pub update_member_role-owner_rows :
    (params : UpdateMemberRoleParams) (s s' : Store) (m actor : Membership) (t : String)
    → HasKeys s
    → find_row (is_member params.membership.tenant_id params.actor_user_id) s.memberships
      ≡ some actor
    → is_owner actor.role ≡ false
    → update_member_role params s ≡ (ok m, s')
    → owner_rows t s' ≡ owner_rows t s
update_member_role-owner_rows params s s' m actor t keys at not_owner h =
    let (c, target, inv) = update_member_role-inv params s s' m h in
    let (row, at', shown) =
      find_context-member params.membership.tenant_id params.actor_user_id s c inv.found in
    let spared =
      spares c.membership.role target.role params.membership.role inv.managed
        (ground (arith, shown, at, at', not_owner)) in
    rw inv.memberships_after (
      keep_if-untouched (is_owner_of t) _ (with_role params.membership) s.memberships
        (touched-none params s s' c target inv t keys spared.0) (λ x _. ground (arith, spared.1)))

-- In a store whose keys are unique, for an actor whose membership of the tenant is not that of an
-- owner: a removal that succeeds leaves the rows of the owners of every tenant as they were.
pub remove_member-owner_rows :
    (params : RemoveMemberParams) (s s' : Store) (actor : Membership) (t : String)
    → HasKeys s
    → find_row (is_member params.tenant_id params.actor_user_id) s.memberships ≡ some actor
    → is_owner actor.role ≡ false
    → remove_member params s ≡ (ok tt, s')
    → owner_rows t s' ≡ owner_rows t s
remove_member-owner_rows params s s' actor t keys at not_owner h =
    let (c, target, inv) = remove_member-inv params s s' h in
    let (row, at', shown) =
      find_context-member params.tenant_id params.actor_user_id s c inv.found in
    let spared =
      spares c.membership.role target.role target.role inv.managed
        (ground (arith, shown, at, at', not_owner)) in
    rw inv.memberships_after (
      keep_if-undeleted (is_owner_of t) _ s.memberships
        (deleted-none params s s' c target inv t keys spared.0))
