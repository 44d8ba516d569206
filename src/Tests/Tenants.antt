-- ===== src/Tests/Tenants.antt =====
-- Sequences of requests that reach a store with three members of one tenant.
use gereh.Prelude.{
  Bool-cases, find_row, count_where, update_where, Result, ok, err, ◌==◌, string_eq, ◌≤◌, ◌<◌,
  String, ◌≡◌, refl, sym, ◌∙◌, ◌≢◌, inl, inr, true, false, some, [], ◌∷◌, arith, nat_eq,
}
use gereh.Tenant.Model.{Status, active, archived, admin, member, Membership, Error, last_owner}
use gereh.Tenant.Authorization.{is_known_role, can_manage_member}
use gereh.Tenant.Store.{Store, is_tenant, is_member, find_context, query_membership, insert_outbox}
use gereh.Tenant.Members.{
  set_tenant_version, update_membership, delete_membership, keep_an_owner, update_member_role,
  remove_member,
}
use gereh.Tenant.Members.Owners.{owners, HasKeys}
use gereh.Tenant.Requests.{archive, change_role, remove, handle, run}
use gereh.Tenant.Requests.Owners.{run-owners}
use gereh.Tenant.Requests.Versions.{version_of, handle-versions, stale_request_fails}
use gereh.Tenant.Requests.Lifecycle.{Steps, run-Steps}
use gereh.Tenant.Requests.Archived.{members_of, status_of, run-archived}
use gereh.Tests.Data.{member_as, store_at, leave, promote, dismiss, close}
use gereh.Tenant.Members.Privilege.{
  owner_rows, update_member_role-owner_rows, remove_member-owner_rows,
}

apart : (a b x : String) → (a == b) ≡ false → (a == x) ≡ true → (b == x) ≡ false
apart a b x differ same = elim (Bool-cases (b == x)) [
  | inl also ↦
      let alike : a ≡ b = (string_eq.same_iff a x).0 same ∙ sym ((string_eq.same_iff b x).0 also) in
      absurd (ground (arith, differ, (string_eq.same_iff a b).1 alike))
  | inr differs ↦ differs
]

three_members :
    (tenant_id user_id : String)
    → count_where (is_member tenant_id user_id) (store_at active).memberships ≤ 1
unfolding count_where
three_members tenant_id user_id = ground (
  arith,
  apart "u1" "u2" user_id refl,
  apart "u1" "u3" user_id refl,
  apart "u2" "u3" user_id refl,
)

one_row : (tenant_id : String) → count_where (is_tenant tenant_id) (store_at active).tenants ≤ 1
unfolding count_where
one_row tenant_id = ground arith

store-HasKeys : HasKeys (store_at active)
store-HasKeys = record { one_membership = three_members; one_tenant = one_row }

an_owner : 0 < owners "t1" (store_at active)
unfolding owners count_where
an_owner = omega arith

run-owners_example :
    HasKeys (run (remove leave ∷ change_role promote ∷ []) (store_at active))
    × (0 < owners "t1" (run (remove leave ∷ change_role promote ∷ []) (store_at active)))
run-owners_example =
    run-owners (remove leave ∷ change_role promote ∷ []) (store_at active) "t1" store-HasKeys
      an_owner

-- The owner may not leave, the viewer becomes a member.
leave-last_owner : remove_member leave (store_at active) ≡ (err last_owner, store_at active)
unfolding remove_member find_context can_manage_member is_known_role keep_an_owner find_row
leave-last_owner = refl

promotes : (handle (change_role promote) (store_at active)).0 ≡ ok tt
unfolding handle update_member_role find_context can_manage_member is_known_role keep_an_owner
    insert_outbox query_membership update_membership set_tenant_version find_row count_where
    update_where
promotes = refl

handle-versions_example :
    (version_of "t1" (store_at active) ≡ some 4)
    × (version_of "t1" (handle (change_role promote) (store_at active)).1 ≡ some 5)
handle-versions_example =
    handle-versions (change_role promote) (store_at active) "t1" 4 5 refl promotes

-- An admin changed a role, and the owner archives the tenant as it was before.
stale_request_fails_example :
    (handle (archive close) (handle (change_role promote) (store_at active)).1).0 ≢ ok tt
stale_request_fails_example =
    stale_request_fails (change_role promote) (archive close) (store_at active) "t1" 4 5 5 refl refl
      (λ e. cc) promotes

run-archived_example :
    (status_of "t1" (run (remove leave ∷ change_role promote ∷ []) (store_at archived))
      ≡ some archived)
    × (members_of "t1" (run (remove leave ∷ change_role promote ∷ []) (store_at archived))
        ≡ members_of "t1" (store_at archived))
unfolding find_row
run-archived_example =
    run-archived (remove leave ∷ change_role promote ∷ []) (store_at archived) "t1" (tt, (tt, tt))
      refl

-- The answer of the promotion, and what it and a removal by an admin leave of the owners.
abbrev promoted : Result Error Membership × Store
promoted = update_member_role promote (store_at active)

promotion : update_member_role promote (store_at active) ≡ (ok (member_as "u3" member), promoted.1)
unfolding update_member_role find_context can_manage_member is_known_role keep_an_owner
    insert_outbox query_membership update_membership set_tenant_version find_row count_where
    update_where
promotion = refl

the_admin :
    find_row (is_member "t1" "u2") (store_at active).memberships ≡ some (member_as "u2" admin)
unfolding find_row
the_admin = refl

update_member_role-owner_rows_example :
    owner_rows "t1" promoted.1 ≡ owner_rows "t1" (store_at active)
update_member_role-owner_rows_example =
    update_member_role-owner_rows promote (store_at active) promoted.1 (member_as "u3" member)
      (member_as "u2" admin) "t1" store-HasKeys the_admin refl promotion

abbrev dismissed : Result Error (Unit {0}) × Store
dismissed = remove_member dismiss (store_at active)

dismissal : remove_member dismiss (store_at active) ≡ (ok tt, dismissed.1)
unfolding remove_member find_context can_manage_member is_known_role keep_an_owner insert_outbox
    query_membership delete_membership set_tenant_version find_row count_where update_where
dismissal = refl

remove_member-owner_rows_example : owner_rows "t1" dismissed.1 ≡ owner_rows "t1" (store_at active)
remove_member-owner_rows_example =
    remove_member-owner_rows dismiss (store_at active) dismissed.1 (member_as "u2" admin) "t1"
      store-HasKeys the_admin refl dismissal

run-Steps_example :
    (b : Status) × (status_of "t1" (run (archive close ∷ []) (store_at active)) ≡ some b)
    × Steps active b
unfolding find_row
run-Steps_example = run-Steps (archive close ∷ []) (store_at active) "t1" active refl
