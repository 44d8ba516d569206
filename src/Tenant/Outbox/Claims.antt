-- ===== src/Tenant/Outbox/Claims.antt =====
-- What a claim of outbox rows takes, and that a lease excludes another claim.
use gereh.Prelude.{
  Bool-cases, all_of, any_of, Time, ◌==◌, nat_eq, ℕ, ◌+◌, ◌-◌, ◌*◌, ◌≤◌, ◌≡◌, refl, subst, inl, inr,
  Bool, true, false, ◌&&◌, ◌||◌, not, List, [], ◌∷◌, arith, string_eq,
}
use gereh.Tenant.Outbox.{OutboxRow, OutboxRecord, lease_over, claim_outbox, has_id}

-- Whether a record with an id is among those claimed.
abbrev pub claims_id : ℕ → List OutboxRecord → Bool
claims_id outbox_id = any_of (λ r. r.outbox_id == outbox_id)

-- Whether an id is in use in the table.
abbrev pub uses_id : ℕ → List OutboxRow → Bool
uses_id outbox_id = any_of (has_id outbox_id)

-- The primary key of the table.
unfoldable pub has_unique_ids : List OutboxRow → Bool
has_unique_ids [] = true
has_unique_ids (row ∷ rows) = not (uses_id row.outbox_id rows) && has_unique_ids rows

pub uses_id-claim_outbox :
    (locked : ℕ → Bool) (limit lease : ℕ) (now : Time) (rows : List OutboxRow) (o : ℕ)
    → uses_id o (claim_outbox locked limit lease now rows).1 ≡ uses_id o rows
unfolding claim_outbox
uses_id-claim_outbox locked limit lease now [] o = refl
uses_id-claim_outbox locked limit lease now (row ∷ rows) o = ground (
  arith,
  uses_id-claim_outbox locked (limit - 1) lease now rows o,
  uses_id-claim_outbox locked limit lease now rows o,
)

-- A claimed id is the id of a row.
pub claims_id-used :
    (locked : ℕ → Bool) (limit lease : ℕ) (now : Time) (rows : List OutboxRow) (o : ℕ)
    → claims_id o (claim_outbox locked limit lease now rows).0 ≡ true
    → uses_id o rows ≡ true
unfolding claim_outbox
claims_id-used locked limit lease now [] o h = ground arith
claims_id-used locked limit lease now (row ∷ rows) o h = ground (
  arith,
  claims_id-used locked (limit - 1) lease now rows o,
  claims_id-used locked limit lease now rows o,
)

-- While a row is leased, no claim takes its id.
pub claim_outbox-leased :
    (locked : ℕ → Bool) (limit lease : ℕ) (now : Time) (rows : List OutboxRow) (o : ℕ)
    → all_of (λ r. not (has_id o r) || not (lease_over r.claimed_at lease now)) rows ≡ true
    → claims_id o (claim_outbox locked limit lease now rows).0 ≡ false
unfolding claim_outbox
claim_outbox-leased locked limit lease now [] o h = refl
claim_outbox-leased locked limit lease now (row ∷ rows) o h = ground (
  arith,
  claim_outbox-leased locked (limit - 1) lease now rows o,
  claim_outbox-leased locked limit lease now rows o,
)

-- An id that is not in use is leased as far as anyone asks.
unused-leased :
    (lease : ℕ) (now : Time) (rows : List OutboxRow) (o : ℕ)
    → uses_id o rows ≡ false
    → all_of (λ r. not (has_id o r) || not (lease_over r.claimed_at lease now)) rows ≡ true
unused-leased lease now [] o h = refl
unused-leased lease now (row ∷ rows) o h = ground (arith, unused-leased lease now rows o)

claimed-leased :
    (locked : ℕ → Bool) (limit lease : ℕ) (now later : Time) (rows : List OutboxRow) (o : ℕ)
    → has_unique_ids rows ≡ true
    → later ≤ now + lease * 1000000
    → claims_id o (claim_outbox locked limit lease now rows).0 ≡ true
    → all_of
        (λ r. not (has_id o r) || not (lease_over r.claimed_at lease later))
        (claim_outbox locked limit lease now rows).1
      ≡ true
unfolding claim_outbox has_unique_ids
claimed-leased locked limit lease now later [] o unique soon h = refl
claimed-leased locked limit lease now later (row ∷ rows) o unique soon h =
    elim (Bool-cases (has_id o row)) [
      | inl same ↦
          let unused : uses_id o rows ≡ false =
            subst (λ i. uses_id i rows ≡ false) ((nat_eq.same_iff row.outbox_id o).0 same)
              (ground (arith, unique)) in
          ground (
            arith,
            same,
            unused,
            claims_id-used locked limit lease now rows o,
            uses_id-claim_outbox locked (limit - 1) lease now rows o,
            unused-leased lease later (claim_outbox locked (limit - 1) lease now rows).1 o,
          )
      | inr different ↦ ground (
        arith,
        different,
        claimed-leased locked (limit - 1) lease now later rows o,
        claimed-leased locked limit lease now later rows o,
      )
    ]

-- In a table with unique ids, a record that a claim returned is not returned by another claim
-- before its lease is over, whatever the limits of both and the locks held by others.
pub claim_outbox-exclusive :
    (locked locked' : ℕ → Bool) (limit limit' lease : ℕ) (now later : Time) (rows : List OutboxRow)
    (o : ℕ)
    → has_unique_ids rows ≡ true
    → later ≤ now + lease * 1000000
    → claims_id o (claim_outbox locked limit lease now rows).0 ≡ true
    → claims_id o
        (claim_outbox locked' limit' lease later (claim_outbox locked limit lease now rows).1).0
      ≡ false
claim_outbox-exclusive locked locked' limit limit' lease now later rows o unique soon h =
    claim_outbox-leased locked' limit' lease later (claim_outbox locked limit lease now rows).1 o
      (claimed-leased locked limit lease now later rows o unique soon h)
