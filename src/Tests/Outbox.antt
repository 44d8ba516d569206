-- ===== src/Tests/Outbox.antt =====
-- A relay that meets rows to publish, one that is leased and one that is not decoded.
use gereh.Prelude.{
  length, all_of, Result, ok, err, ℕ, ◌≤◌, ◌<◌, ◌≡◌, refl, Bool, true, false, none, some, List, [],
  ◌∷◌, arith, string_eq, nat_eq,
}
use gereh.Tenant.Outbox.{
  OutboxRow, OutboxRecord, claim_outbox, backoff, Config, RelayState, World, release, publish_event,
  mark_published, relay_record, relay_records, process_batch,
}
use gereh.Tenant.Outbox.Claims.{claims_id, has_unique_ids, claim_outbox-exclusive}
use gereh.Tenant.Outbox.Events.{events_of}
use gereh.Tenant.Outbox.Delivery.{is_honest, process_batch-honest}
use gereh.Tenant.Outbox.Progress.{is_done, process_batch-publishes}
use mathlib.Core.List.{Memᴰ}
use gereh.Tenant.Outbox.Takes.{IsFree, IsTaken, claim_outbox-free}
use gereh.Tests.Data.{event_of}

abbrev due : OutboxRow
due = record {
  outbox_id = 1;
  event = record (event_of "e1") { envelope = 1 ∷ [] };
  available_at = 5;
  claimed_at = none;
  published_at = none;
  attempts = 0;
  last_error = none;
}

abbrev leased : OutboxRow
leased = record due { outbox_id = 2; event = event_of "e2"; claimed_at = some 9 }

abbrev settings : Config
settings = record { batch_size = 10; lease = 1000; max_backoff = 60000000000 }

abbrev decode_some : List ℕ → Result (List ℕ) (Unit {0})
decode_some [] = err []
decode_some (b ∷ bs) = ok tt

-- An empty envelope is not decoded, and the broker accepts all the others.
abbrev sunny : World (Unit {0})
sunny = record {
  decode = decode_some;
  publish = λ topic key m. ok tt;
  time_of = λ o. 20;
  reaches = λ o. true;
}

abbrev unlocked : ℕ → Bool
unlocked o = false

unique-table : has_unique_ids (due ∷ leased ∷ []) ≡ true
unfolding has_unique_ids
unique-table = refl

first_claimed : claims_id 1 (claim_outbox unlocked 10 1000 10 (due ∷ leased ∷ [])).0 ≡ true
unfolding claim_outbox
first_claimed = refl

-- The delays double up to the limit.
delays : backoff 60000000000 1 ≡ 2000000000
unfolding backoff
delays = refl

longest_delay : backoff 60000000000 9 ≡ 60000000000
unfolding backoff
longest_delay = refl

-- Two rows to publish, the first with an envelope that is not decoded.
abbrev mixed : RelayState
mixed = record {
  rows = record due { outbox_id = 2; event = record due.event { envelope = [] } } ∷ due ∷ [];
  acknowledged = [];
}

one_claimed : claims_id 1 (claim_outbox unlocked 10 1000 10 mixed.rows).0 ≡ true
unfolding claim_outbox
one_claimed = refl

claim_outbox-exclusive_example :
    claims_id 1
      (claim_outbox unlocked 10 1000 500 (claim_outbox unlocked 10 1000 10 (due ∷ leased ∷ [])).1).0
    ≡ false
claim_outbox-exclusive_example =
    claim_outbox-exclusive unlocked unlocked 10 10 1000 10 500 (due ∷ leased ∷ []) 1 unique-table
      (omega arith) first_claimed

abbrev rows : List OutboxRow
rows = due ∷ leased ∷ []

claim_outbox-free_example :
    (length (claim_outbox unlocked 10 1000 10 rows).0 ≤ 10)
    × ((r : OutboxRecord)
        → Memᴰ r (claim_outbox unlocked 10 1000 10 rows).0
        → (row : OutboxRow) × Memᴰ row rows × IsFree unlocked 1000 10 row × IsTaken row r)
    × (length (claim_outbox unlocked 10 1000 10 rows).0 < 10
        → (row : OutboxRow) → Memᴰ row rows
        → IsFree unlocked 1000 10 row
        → claims_id row.outbox_id (claim_outbox unlocked 10 1000 10 rows).0 ≡ true)
claim_outbox-free_example = claim_outbox-free unlocked 10 1000 10 rows

unique-mixed : has_unique_ids mixed.rows ≡ true
unfolding has_unique_ids
unique-mixed = refl

abbrev after_batch : RelayState
after_batch = (process_batch settings sunny unlocked 10 mixed).1

process_batch-honest_example :
    (all_of (is_honest after_batch.acknowledged) after_batch.rows ≡ true)
    × (events_of after_batch.rows ≡ events_of mixed.rows)
    × (has_unique_ids after_batch.rows ≡ true)
process_batch-honest_example =
    process_batch-honest settings sunny unlocked 10 mixed unique-mixed refl

-- The broker has acknowledged the one event, and its row alone is marked.
after_batch_marks : after_batch.acknowledged ≡ "e1" ∷ []
unfolding process_batch claim_outbox relay_records relay_record publish_event mark_published release
after_batch_marks = refl

process_batch-publishes_example :
    is_done 1 (process_batch settings sunny unlocked 10 mixed).1.rows ≡ true
process_batch-publishes_example =
    process_batch-publishes settings sunny unlocked 10 mixed 1 one_claimed refl refl
