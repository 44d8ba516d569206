-- ===== src/Tenant/Outbox/Agreement.antt =====
-- The records of a claim agree with the rows of the table: one id is of one event.
use gereh.Prelude.{
  all_of, Time, ◌==◌, eq_refl, ℕ, ◌-◌, ◌≡◌, refl, Bool, true, false, ◌||◌, not, List, [], ◌∷◌,
  arith, string_eq, nat_eq,
}
use gereh.Tenant.Outbox.{OutboxRow, OutboxRecord, with_claim, record_of, claim_outbox}
use gereh.Tenant.Outbox.Events.{events_of}
use gereh.Tenant.Outbox.Claims.{
  claims_id, uses_id, has_unique_ids, uses_id-claim_outbox, claims_id-used,
}

-- Whether a record and a row of one id are of one event.
abbrev pub agrees : OutboxRecord → OutboxRow → Bool
agrees r row = not (row.outbox_id == r.outbox_id) || row.event.id == r.event.id

abbrev pub all_agree : List OutboxRecord → List OutboxRow → Bool
all_agree rs rows = all_of (λ r. all_of (agrees r) rows) rs

-- A record with an id that a list of rows does not use agrees with them.
agrees-unused :
    (r : OutboxRecord) (rows : List OutboxRow)
    → uses_id r.outbox_id rows ≡ false
    → all_of (agrees r) rows ≡ true
agrees-unused r [] h = refl
agrees-unused r (row ∷ rows) h = ground (arith, agrees-unused r rows)

agrees-events_of :
    (r : OutboxRecord) (rows rows' : List OutboxRow)
    → events_of rows' ≡ events_of rows
    → all_of (agrees r) rows' ≡ all_of (agrees r) rows
agrees-events_of r [] [] h = refl
agrees-events_of r [] (x ∷ rows') h = cc
agrees-events_of r (x ∷ rows) [] h = cc
agrees-events_of r (x ∷ rows) (y ∷ rows') h = ground (arith, h, agrees-events_of r rows rows')

pub all_agree-events_of :
    (rs : List OutboxRecord) (rows rows' : List OutboxRow)
    → events_of rows' ≡ events_of rows
    → all_agree rs rows' ≡ all_agree rs rows
all_agree-events_of [] rows rows' h = refl
all_agree-events_of (r ∷ rs) rows rows' h =
    ground (arith, agrees-events_of r rows rows' h, all_agree-events_of rs rows rows' h)

all_agree-cons :
    (rs : List OutboxRecord) (row : OutboxRow) (rows : List OutboxRow)
    → claims_id row.outbox_id rs ≡ false
    → all_agree rs rows ≡ true
    → all_agree rs (row ∷ rows) ≡ true
all_agree-cons [] row rows unclaimed h = refl
all_agree-cons (r ∷ rs) row rows unclaimed h = ground (arith, all_agree-cons rs row rows)

pub claimed-agree :
    (locked : ℕ → Bool) (limit lease : ℕ) (now : Time) (rows : List OutboxRow)
    → has_unique_ids rows ≡ true
    → all_agree
        (claim_outbox locked limit lease now rows).0
        (claim_outbox locked limit lease now rows).1
      ≡ true
unfolding claim_outbox has_unique_ids
claimed-agree locked limit lease now [] unique = refl
claimed-agree locked limit lease now (row ∷ rows) unique =
    let taken = claim_outbox locked (limit - 1) lease now rows in
    let left = claim_outbox locked limit lease now rows in
    ground (
      arith,
      unique,
      eq_refl row.event.id,
      claimed-agree locked (limit - 1) lease now rows,
      claimed-agree locked limit lease now rows,
      claims_id-used locked (limit - 1) lease now rows row.outbox_id,
      claims_id-used locked limit lease now rows row.outbox_id,
      uses_id-claim_outbox locked (limit - 1) lease now rows row.outbox_id,
      agrees-unused (record_of (with_claim now row)) taken.1,
      all_agree-cons taken.0 (with_claim now row) taken.1,
      all_agree-cons left.0 row left.1,
    )
