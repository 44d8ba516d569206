-- ===== src/Tenant/Outbox/Events.antt =====
-- The ids and events of the outbox, which neither a claim nor an update changes.
use gereh.Prelude.{
  update_where, Time, OutboxEvent, ℕ, ◌-◌, ◌≡◌, refl, Bool, List, [], ◌∷◌, map, arith, string_eq,
  nat_eq,
}
use gereh.Tenant.Outbox.{OutboxRow, claim_outbox}
use gereh.Tenant.Outbox.Claims.{uses_id, has_unique_ids}

-- The ids and the events of a table, which no batch changes.
abbrev pub events_of : List OutboxRow → List (ℕ × OutboxEvent)
events_of = map (λ row. (row.outbox_id, row.event))

pub events_of-update_where :
    (q : OutboxRow → Bool) (f : OutboxRow → OutboxRow) (rows : List OutboxRow)
    → ((row : OutboxRow) → (f row).outbox_id ≡ row.outbox_id)
    → ((row : OutboxRow) → (f row).event ≡ row.event)
    → events_of (update_where q f rows) ≡ events_of rows
unfolding update_where
events_of-update_where q f [] i e = refl
events_of-update_where q f (row ∷ rows) i e =
    ground (arith, i row, e row, events_of-update_where q f rows i e)

pub events_of-claim_outbox :
    (locked : ℕ → Bool) (limit lease : ℕ) (now : Time) (rows : List OutboxRow)
    → events_of (claim_outbox locked limit lease now rows).1 ≡ events_of rows
unfolding claim_outbox
events_of-claim_outbox locked limit lease now [] = refl
events_of-claim_outbox locked limit lease now (row ∷ rows) = ground (
  arith,
  events_of-claim_outbox locked (limit - 1) lease now rows,
  events_of-claim_outbox locked limit lease now rows,
)

-- Unique ids depend on the ids only.
uses_id-events_of :
    (rows rows' : List OutboxRow) (o : ℕ)
    → events_of rows' ≡ events_of rows
    → uses_id o rows' ≡ uses_id o rows
uses_id-events_of [] [] o h = refl
uses_id-events_of [] (x ∷ rows') o h = cc
uses_id-events_of (x ∷ rows) [] o h = cc
uses_id-events_of (x ∷ rows) (y ∷ rows') o h = ground (arith, h, uses_id-events_of rows rows' o)

pub has_unique_ids-events_of :
    (rows rows' : List OutboxRow)
    → events_of rows' ≡ events_of rows
    → has_unique_ids rows' ≡ has_unique_ids rows
unfolding has_unique_ids
has_unique_ids-events_of [] [] h = refl
has_unique_ids-events_of [] (x ∷ rows') h = cc
has_unique_ids-events_of (x ∷ rows) [] h = cc
has_unique_ids-events_of (x ∷ rows) (y ∷ rows') h =
    ground (arith, h, uses_id-events_of rows rows' x.outbox_id, has_unique_ids-events_of rows rows')
