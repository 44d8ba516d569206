-- ===== src/Tenant/Outbox.antt =====
-- services/tenant/internal/adapters/postgres/outbox.go and
-- services/tenant/internal/adapters/outbox/
-- relay.go: the rows of tenant_outbox as the relay sees them, and one batch of the relay. Each
-- statement reads the clock once. The rows stand in the order of their ids, which the database
-- gives out; a lease is in whole milliseconds, as it is sent. Texts of errors are their bytes.
pub mod Claims
pub mod Events
pub mod Delivery
pub mod Agreement
pub mod Progress
pub mod Takes
use Prim.Native.Char.{code}
use gereh.Prelude.{
  ltb, leb, if◌then◌else◌, length, update_where, Result, ok, err, Time, OutboxEvent, ◌==◌, ℕ, zero,
  suc, ◌+◌, ◌-◌, ◌*◌, min, String, Bool, true, false, ◌&&◌, not, Option, none, some, List, [], ◌∷◌,
  ◌++◌, string_eq, nat_eq,
}

pub record OutboxRow : Type 0 where
  pub outbox_id : ℕ
  pub event : OutboxEvent
  pub available_at : Time
  pub claimed_at : Option Time
  pub published_at : Option Time
  pub attempts : ℕ
  pub last_error : Option (List ℕ)

pub record OutboxRecord : Type 0 where
  pub outbox_id : ℕ
  pub event : OutboxEvent
  pub attempts : ℕ

abbrev pub is_unset_time : Option Time → Bool
is_unset_time none = true
is_unset_time (some t) = false

-- Whether no lease is running.
abbrev pub lease_over : Option Time → ℕ → Time → Bool
lease_over none lease now = true
lease_over (some claimed_at) lease now = ltb (claimed_at + lease * 1000000) now

-- The WHERE clause of the candidates.
abbrev pub is_candidate : ℕ → Time → OutboxRow → Bool
is_candidate lease now row =
    is_unset_time row.published_at
    && (leb row.available_at now && lease_over row.claimed_at lease now)

abbrev pub with_claim : Time → OutboxRow → OutboxRow
with_claim now row = record row { claimed_at = some now; attempts = row.attempts + 1 }

abbrev pub record_of : OutboxRow → OutboxRecord
record_of row = record { outbox_id = row.outbox_id; event = row.event; attempts = row.attempts }

-- The claim: of the candidates that no other transaction has locked, the first `limit` are taken.
unfoldable pub claim_outbox :
    (ℕ → Bool) → ℕ → ℕ → Time → List OutboxRow → List OutboxRecord × List OutboxRow
claim_outbox locked limit lease now [] = ([], [])
claim_outbox locked limit lease now (row ∷ rows) =
    let taken = claim_outbox locked (limit - 1) lease now rows in
    let left = claim_outbox locked limit lease now rows in
    if ltb 0 limit && (not (locked row.outbox_id) && is_candidate lease now row)
    then (record_of (with_claim now row) ∷ taken.0, with_claim now row ∷ taken.1)
    else (left.0, row ∷ left.1)

abbrev pub has_id : ℕ → OutboxRow → Bool
has_id outbox_id row = row.outbox_id == outbox_id

abbrev pub with_published : Time → OutboxRow → OutboxRow
with_published now row = record row {
  published_at = some now;
  claimed_at = none;
  last_error = none;
}

unfoldable pub mark_outbox_published : ℕ → Time → List OutboxRow → List OutboxRow
mark_outbox_published outbox_id now = update_where (has_id outbox_id) (with_published now)

-- `publishError[:2000]`
unfoldable pub first_bytes : ℕ → List ℕ → List ℕ
first_bytes n [] = []
first_bytes n (b ∷ bs) = let rest = first_bytes (n - 1) bs in if ltb 0 n then b ∷ rest else []

abbrev pub with_release : Time → List ℕ → OutboxRow → OutboxRow
with_release retry_at error row = record row {
  claimed_at = none;
  available_at = retry_at;
  last_error = some error;
}

unfoldable pub release_outbox : ℕ → Time → List ℕ → List OutboxRow → List OutboxRow
unfolding first_bytes
release_outbox outbox_id retry_at error =
    update_where (λ row. has_id outbox_id row && is_unset_time row.published_at)
      (with_release retry_at (first_bytes 2000 error))

-- Powers of two, as `math.Pow` gives them for small exponents.
unfoldable pub power_of_two : ℕ → ℕ
power_of_two zero = 1
power_of_two (suc n) = 2 * power_of_two n

-- The delay before the next attempt, in nanoseconds.
unfoldable pub backoff : ℕ → ℕ → ℕ
unfolding power_of_two
backoff max_backoff attempts = min (1000000000 * power_of_two (min attempts 10)) max_backoff

-- The bytes of an ASCII text.
unfoldable pub bytes : String → List ℕ
bytes String.[] = []
bytes (String.◌∷◌ c s) = code c ∷ bytes s

pub record Config : Type 0 where
  pub batch_size : ℕ
  pub lease : ℕ
  pub max_backoff : ℕ

-- The table, and what the broker keeps: the ids of the events whose publishing it has acknowledged,
-- the last one first. Only a call of the producer adds to them.
pub record RelayState : Type 0 where
  pub rows : List OutboxRow
  pub acknowledged : List String

-- What a batch meets: the decoding of envelopes, the broker, the times at which the records are
-- handled, and whether the database answers the update of a record.
pub record World (M : Type 0) : Type 0 where
  pub decode : List ℕ → Result (List ℕ) M
  pub publish : String → String → M → Result (List ℕ) (Unit {0})
  pub time_of : ℕ → Time
  pub reaches : ℕ → Bool

module _ {M : Type 0} (config : Config) (world : World M) where
  unfoldable pub release : OutboxRecord → List ℕ → RelayState → RelayState
  unfolding backoff
  release r error s =
      if world.reaches r.outbox_id
      then record s {
        rows =
            release_outbox r.outbox_id
              (world.time_of r.outbox_id + backoff config.max_backoff r.attempts) error s.rows;
      }
      else s

  -- The call of the producer: the broker's answer, and what it has acknowledged after it.
  unfoldable pub publish_event :
      OutboxRecord → M → RelayState → Result (List ℕ) (Unit {0}) × RelayState
  publish_event r envelope s = elim (world.publish r.event.topic r.event.key envelope) [
    | err e ↦ (err e, s)
    | ok _ ↦ (ok tt, record s { acknowledged = r.event.id ∷ s.acknowledged })
  ]

  unfoldable pub mark_published : OutboxRecord → RelayState → RelayState
  mark_published r s =
      if world.reaches r.outbox_id
      then record s { rows = mark_outbox_published r.outbox_id (world.time_of r.outbox_id) s.rows }
      else s

  unfoldable pub relay_record : OutboxRecord → RelayState → RelayState
  unfolding bytes
  relay_record r s = elim (world.decode r.event.envelope) [
    | err e ↦ release r (bytes "decode outbox envelope: " ++ e) s
    | ok envelope ↦
        let (answer, after) = publish_event r envelope s in
        elim answer [ err e ↦ release r e after | ok _ ↦ mark_published r after ]
  ]

  unfoldable pub relay_records : List OutboxRecord → RelayState → RelayState
  relay_records [] s = s
  relay_records (r ∷ rs) s = relay_records rs (relay_record r s)

  -- Whether there was anything to do, and the state after it.
  unfoldable pub process_batch : (ℕ → Bool) → Time → RelayState → Bool × RelayState
  process_batch locked now s =
      let (records, rows) = claim_outbox locked config.batch_size config.lease now s.rows in
      (ltb 0 (length records), relay_records records (record s { rows = rows }))
