-- ===== src/Tenant/Requests/Owners.antt =====
-- No sequence of requests takes the last owner from a tenant.
use gereh.Prelude.{◌<◌, String, List, [], ◌∷◌, string_eq, nat_eq}
use gereh.Tenant.Store.{Store}
use gereh.Tenant.Members.Owners.{
  owners, owners-same, owners-grown, HasKeys, owners-updated, owners-removed,
}
use gereh.Tenant.Requests.{Request, handle, run}
use gereh.Tenant.Requests.Effects.{
  Effect, none_at_all, created, updated, archived_now, added, role_changed, removed, tenant_settled,
  handle-Effect,
}
use gereh.Tenant.Requests.Keys.{handle-HasKeys}

owners-Effect :
    {r : Request} {s s' : Store} (t : String)
    → Effect r s s'
    → HasKeys s
    → 0 < owners t s
    → 0 < owners t s'
owners-Effect t (none_at_all _ same) keys h = owners-same t _ _ same h
owners-Effect {s} t (created params _ inv) keys h =
    owners-grown t _ _ params.context.membership inv.memberships_after h
owners-Effect t (updated params actor inv) keys h = owners-same t _ _ inv.memberships_after h
owners-Effect t (archived_now params actor inv) keys h = owners-same t _ _ inv.memberships_after h
owners-Effect {s} t (added params actor inv) keys h =
    owners-grown t _ _ params.membership inv.memberships_after h
owners-Effect {s} {s'} t (role_changed params actor target inv) keys h =
    owners-updated params s s' actor target inv t keys h
owners-Effect {s} {s'} t (removed params actor target inv) keys h =
    owners-removed params s s' actor target inv t keys h
owners-Effect t (tenant_settled tenant_id status at _ same _) keys h = owners-same t _ _ same h

-- For any sequence of requests of any kind, from a store whose keys are unique and in which the
-- tenant has an owner: the keys are unique and the tenant has an owner after it.
pub run-owners :
    (rs : List Request) (s : Store) (tenant_id : String)
    → HasKeys s
    → 0 < owners tenant_id s
    → HasKeys (run rs s) × (0 < owners tenant_id (run rs s))
unfolding run
run-owners [] s tenant_id keys h = (keys, h)
run-owners (r ∷ rs) s tenant_id keys h =
    run-owners rs (handle r s).1 tenant_id (handle-HasKeys r s keys)
      (owners-Effect tenant_id (handle-Effect r s) keys h)
