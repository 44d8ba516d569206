-- ===== src/Tenant/Outbox/Takes.antt =====
-- Which rows a claim takes, by the columns of the row, and how many.
use mathlib.Core.List.{Memᴰ}
use gereh.Prelude.{
  ltb, Bool-cases, length, Time, ℕ, ◌+◌, ◌-◌, ◌*◌, ◌≤◌, ◌<◌, ◌≡◌, refl, ap, subst, ◌⊎◌, inl, inr,
  Bool, true, false, ◌&&◌, not, Option, none, some, List, [], ◌∷◌, arith, string_eq, nat_eq,
}
use gereh.Tenant.Outbox.{
  OutboxRow, OutboxRecord, lease_over, is_candidate, with_claim, record_of, claim_outbox,
}
use gereh.Tenant.Outbox.Claims.{claims_id}

-- A row that can be claimed: no other transaction has locked it, it is not published, it is due,
-- and it has no lease or one that is over; a lease is in milliseconds, a time in nanoseconds.
pub record IsFree (locked : ℕ → Bool) (lease : ℕ) (now : Time) (row : OutboxRow) : Type 0 where
  pub unlocked : locked row.outbox_id ≡ false
  pub unpublished : row.published_at ≡ none
  pub due : row.available_at ≤ now
  pub unleased :
      (row.claimed_at ≡ none)
      ⊎ ((since : Time) × (row.claimed_at ≡ some since) × (since + lease * 1000000 < now))

-- What a claim says of a row: its id and event, and one attempt more.
pub record IsTaken (row : OutboxRow) (r : OutboxRecord) : Type 0 where
  pub same_id : r.outbox_id ≡ row.outbox_id
  pub same_event : r.event ≡ row.event
  pub attempt : r.attempts ≡ row.attempts + 1

lease_over-unleased :
    (claimed_at : Option Time) (lease : ℕ) (now : Time)
    → lease_over claimed_at lease now ≡ true
    → (claimed_at ≡ none)
      ⊎ ((since : Time) × (claimed_at ≡ some since) × (since + lease * 1000000 < now))
lease_over-unleased none lease now h = inl refl
lease_over-unleased (some since) lease now h = inr (since, refl, ground (arith, h))

candidate-IsFree :
    (locked : ℕ → Bool) (lease : ℕ) (now : Time) (row : OutboxRow)
    → (not (locked row.outbox_id) && is_candidate lease now row) ≡ true
    → IsFree locked lease now row
candidate-IsFree locked lease now row h = record {
  unlocked = ground (arith, h);
  unpublished = ground (arith, h);
  due = ground (arith, h);
  unleased = lease_over-unleased row.claimed_at lease now (ground (arith, h));
}

unleased-lease_over :
    (claimed_at : Option Time) (lease : ℕ) (now : Time)
    → (claimed_at ≡ none)
      ⊎ ((since : Time) × (claimed_at ≡ some since) × (since + lease * 1000000 < now))
    → lease_over claimed_at lease now ≡ true
unleased-lease_over claimed_at lease now (inl unset) = rw unset refl
unleased-lease_over claimed_at lease now (inr (since, is, over)) = rw is (ground (arith, over))

IsFree-candidate :
    (locked : ℕ → Bool) (lease : ℕ) (now : Time) (row : OutboxRow)
    → IsFree locked lease now row
    → (not (locked row.outbox_id) && is_candidate lease now row) ≡ true
IsFree-candidate locked lease now row free = ground (
  arith,
  free.unlocked,
  free.unpublished,
  free.due,
  unleased-lease_over row.claimed_at lease now free.unleased,
)

pub claims_at_most :
    (locked : ℕ → Bool) (limit lease : ℕ) (now : Time) (rows : List OutboxRow)
    → length (claim_outbox locked limit lease now rows).0 ≤ limit
unfolding claim_outbox
claims_at_most locked limit lease now [] = omega arith
claims_at_most locked limit lease now (row ∷ rows) = ground (
  arith,
  claims_at_most locked (limit - 1) lease now rows,
  claims_at_most locked limit lease now rows,
)

-- What is taken from the rest of a table is taken from the table.
later :
    {locked : ℕ → Bool} {lease : ℕ} {now : Time} {first : OutboxRow} {rows : List OutboxRow}
    {r : OutboxRecord}
    → (row : OutboxRow) × Memᴰ row rows × IsFree locked lease now row × IsTaken row r
    → (row : OutboxRow) × Memᴰ row (first ∷ rows) × IsFree locked lease now row × IsTaken row r
later (row, m, free, taken) = (row, Memᴰ.tail m, free, taken)

claims_free :
    (locked : ℕ → Bool) (limit lease : ℕ) (now : Time) (rows : List OutboxRow) (r : OutboxRecord)
    → Memᴰ r (claim_outbox locked limit lease now rows).0
    → (row : OutboxRow) × Memᴰ row rows × IsFree locked lease now row × IsTaken row r
unfolding claim_outbox
claims_free locked limit lease now [] r m = elim m [ ]
claims_free locked limit lease now (row ∷ rows) r m =
    let taken = (claim_outbox locked (limit - 1) lease now rows).0 in
    let left = (claim_outbox locked limit lease now rows).0 in
    elim (Bool-cases (not (locked row.outbox_id) && is_candidate lease now row)) [
      | inr unfree ↦
          let passed : (claim_outbox locked limit lease now (row ∷ rows)).0 ≡ left =
            ground (arith, unfree) in
          later (claims_free locked limit lease now rows r (subst (Memᴰ r) passed m))
      | inl free ↦ elim (Bool-cases (ltb 0 limit)) [
        | inr full ↦
            let passed : (claim_outbox locked limit lease now (row ∷ rows)).0 ≡ left =
              ground (arith, full) in
            later (claims_free locked limit lease now rows r (subst (Memᴰ r) passed m))
        | inl room ↦
            let first = record_of (with_claim now row) in
            let claimed : (claim_outbox locked limit lease now (row ∷ rows)).0 ≡ first ∷ taken =
              ground (arith, free, room) in
            elim (subst (Memᴰ r) claimed m) [
              | Memᴰ.head is ↦ (
                row,
                Memᴰ.head refl,
                candidate-IsFree locked lease now row free,
                record {
                  same_id = ap (λ r. r.outbox_id) is;
                  same_event = ap (λ r. r.event) is;
                  attempt = ap (λ r. r.attempts) is;
                },
              )
              | Memᴰ.tail n ↦ later (claims_free locked (limit - 1) lease now rows r n)
            ]
      ]
    ]

claims_all :
    (locked : ℕ → Bool) (limit lease : ℕ) (now : Time) (rows : List OutboxRow) (row : OutboxRow)
    → Memᴰ row rows
    → IsFree locked lease now row
    → length (claim_outbox locked limit lease now rows).0 < limit
    → claims_id row.outbox_id (claim_outbox locked limit lease now rows).0 ≡ true
unfolding claim_outbox
claims_all locked limit lease now [] row m free some_left = elim m [ ]
claims_all locked limit lease now (x ∷ rows) row (Memᴰ.head is) free some_left = ground (
  arith,
  some_left,
  IsFree-candidate locked lease now x (subst (IsFree locked lease now) is free),
  ap (λ r. r.outbox_id) is,
)
claims_all locked limit lease now (x ∷ rows) row (Memᴰ.tail m) free some_left = ground (
  arith,
  some_left,
  claims_all locked (limit - 1) lease now rows row m free,
  claims_all locked limit lease now rows row m free,
)

-- A claim returns at most `limit` records; each is of a row of the table that is not locked, not
-- published, due and without a running lease, with the event of the row and one attempt more; and
-- when it returns fewer than `limit`, it returns a record for every such row.
pub claim_outbox-free :
    (locked : ℕ → Bool) (limit lease : ℕ) (now : Time) (rows : List OutboxRow)
    → let records = (claim_outbox locked limit lease now rows).0 in
      (length records ≤ limit)
      × ((r : OutboxRecord)
          → Memᴰ r records
          → (row : OutboxRow) × Memᴰ row rows × IsFree locked lease now row × IsTaken row r)
      × (length records < limit
          → (row : OutboxRow) → Memᴰ row rows
          → IsFree locked lease now row
          → claims_id row.outbox_id records ≡ true)
claim_outbox-free locked limit lease now rows = (
  claims_at_most locked limit lease now rows,
  claims_free locked limit lease now rows,
  λ some_left row m free. claims_all locked limit lease now rows row m free some_left,
)
