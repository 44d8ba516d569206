-- ===== src/Tenant/Outbox/Delivery.antt =====
-- The relay publishes before it marks: what is marked as published has reached the broker.
use gereh.Prelude.{
  all_of, update_where, Result-cases, Time, string_eq, eq_refl, contains, ℕ, ◌+◌, ◌-◌, String, ◌≡◌,
  refl, sym, ◌∙◌, subst, inl, inr, Bool, true, ◌&&◌, ◌||◌, List, [], ◌∷◌, ◌++◌, arith, nat_eq,
}
use gereh.Tenant.Outbox.{
  OutboxRow, OutboxRecord, is_unset_time, claim_outbox, has_id, with_published,
  mark_outbox_published, first_bytes, with_release, release_outbox, backoff, bytes, Config,
  RelayState, World, release, publish_event, mark_published, relay_record, relay_records,
  process_batch,
}
use gereh.Tenant.Outbox.Agreement.{agrees, all_agree, all_agree-events_of, claimed-agree}
use gereh.Tenant.Outbox.Events.{
  events_of, events_of-update_where, events_of-claim_outbox, has_unique_ids-events_of,
}
use gereh.Tenant.Outbox.Claims.{has_unique_ids}

all_of-update_where {ℓ} :
    {A : Type ℓ} (p q : A → Bool) (f : A → A) (xs : List A)
    → ((x : A) → p x ≡ true → q x ≡ true → p (f x) ≡ true)
    → all_of p xs ≡ true
    → all_of p (update_where q f xs) ≡ true
unfolding update_where
all_of-update_where p q f [] keeps h = refl
all_of-update_where p q f (x ∷ xs) keeps h =
    ground (arith, keeps x, all_of-update_where p q f xs keeps)

-- Whether a row that is marked as published is of an acknowledged event.
abbrev pub is_honest : List String → OutboxRow → Bool
is_honest acknowledged row = is_unset_time row.published_at || contains acknowledged row.event.id

-- A claim touches neither publication nor events.
is_honest-claim_outbox :
    (locked : ℕ → Bool) (limit lease : ℕ) (now : Time) (rows : List OutboxRow) (acks : List String)
    → all_of (is_honest acks) rows ≡ true
    → all_of (is_honest acks) (claim_outbox locked limit lease now rows).1 ≡ true
unfolding claim_outbox
is_honest-claim_outbox locked limit lease now [] acks h = refl
is_honest-claim_outbox locked limit lease now (row ∷ rows) acks h = ground (
  arith,
  is_honest-claim_outbox locked (limit - 1) lease now rows acks,
  is_honest-claim_outbox locked limit lease now rows acks,
)

-- An acknowledgement more.
is_honest-more :
    (acks : List String) (i : String) (rows : List OutboxRow)
    → all_of (is_honest acks) rows ≡ true
    → all_of (is_honest (i ∷ acks)) rows ≡ true
is_honest-more acks i [] h = refl
is_honest-more acks i (row ∷ rows) h = ground (arith, is_honest-more acks i rows)

-- A row of the id of an acknowledged record is of an acknowledged event.
contains-agrees :
    (r : OutboxRecord) (acks : List String) (row : OutboxRow)
    → agrees r row ≡ true
    → contains acks r.event.id ≡ true
    → has_id r.outbox_id row ≡ true
    → contains acks row.event.id ≡ true
contains-agrees r acks row same told h =
    let alike : row.event.id ≡ r.event.id =
      (string_eq.same_iff row.event.id r.event.id).0 (ground (arith, same, h)) in
    subst (λ i. contains acks i ≡ true) (sym alike) told

-- To mark the rows of a record that has been acknowledged is honest.
is_honest-mark :
    (r : OutboxRecord) (now : Time) (acks : List String) (rows : List OutboxRow)
    → all_of (agrees r) rows ≡ true
    → contains acks r.event.id ≡ true
    → all_of (is_honest acks) rows ≡ true
    → all_of (is_honest acks) (mark_outbox_published r.outbox_id now rows) ≡ true
unfolding mark_outbox_published update_where
is_honest-mark r now acks [] same told h = refl
is_honest-mark r now acks (row ∷ rows) same told h =
    ground (arith, contains-agrees r acks row, is_honest-mark r now acks rows)

module _ {M : Type 0} (config : Config) (world : World M) where
  release-events :
      (r : OutboxRecord) (e : List ℕ) (s : RelayState)
      → events_of (release config world r e s).rows ≡ events_of s.rows
  unfolding release release_outbox
  release-events r e s = ground (
    arith,
    events_of-update_where (λ row. has_id r.outbox_id row && is_unset_time row.published_at)
        (with_release (world.time_of r.outbox_id + backoff config.max_backoff r.attempts)
          (first_bytes 2000 e))
        s.rows (λ x. refl) (λ x. refl),
  )

  mark_published-events :
      (r : OutboxRecord) (s : RelayState)
      → events_of (mark_published config world r s).rows ≡ events_of s.rows
  unfolding mark_published mark_outbox_published
  mark_published-events r s = ground (
    arith,
    events_of-update_where (has_id r.outbox_id) (with_published (world.time_of r.outbox_id)) s.rows
        (λ x. refl) (λ x. refl),
  )

  abbrev Honest : RelayState → Type 0
  Honest s = all_of (is_honest s.acknowledged) s.rows ≡ true

  release-Honest :
      (r : OutboxRecord) (e : List ℕ) (s : RelayState)
      → Honest s
      → Honest (release config world r e s)
  unfolding release release_outbox
  release-Honest r e s h = ground (
    arith,
    h,
    all_of-update_where (is_honest s.acknowledged)
        (λ row. has_id r.outbox_id row && is_unset_time row.published_at)
        (with_release (world.time_of r.outbox_id + backoff config.max_backoff r.attempts)
          (first_bytes 2000 e))
        s.rows (λ x hx q. hx) h,
  )

  mark_published-Honest :
      (r : OutboxRecord) (s : RelayState)
      → all_of (agrees r) s.rows ≡ true
      → contains s.acknowledged r.event.id ≡ true
      → Honest s
      → Honest (mark_published config world r s)
  unfolding mark_published
  mark_published-Honest r s same told h =
      ground
        (arith, h, is_honest-mark r (world.time_of r.outbox_id) s.acknowledged s.rows same told h)

  -- The broker has acknowledged a record's event.
  abbrev pub told : OutboxRecord → RelayState → RelayState
  told r s = record s { acknowledged = r.event.id ∷ s.acknowledged }

  -- What holds of every way in which a record may end holds of the record's handling.
  pub relay_record-by {ℓ} :
      (P : RelayState → Type ℓ) (r : OutboxRecord) (s : RelayState)
      → ((e : List ℕ) → P (release config world r e s))
      → P (mark_published config world r (told r s))
      → P (relay_record config world r s)
  unfolding relay_record publish_event
  relay_record-by P r s released marked = elim (Result-cases (world.decode r.event.envelope)) [
    | inr (e, d) ↦
        let error = bytes "decode outbox envelope: " ++ e in
        let ends : release config world r error s ≡ relay_record config world r s = cc d in
        subst P ends (released error)
    | inl (m, d) ↦ elim (Result-cases (world.publish r.event.topic r.event.key m)) [
      | inr (e, p) ↦
          let ends : release config world r e s ≡ relay_record config world r s = cc (d, p) in
          subst P ends (released e)
      | inl (u, p) ↦
          let ends : mark_published config world r (told r s) ≡ relay_record config world r s =
            cc (d, p) in
          subst P ends marked
    ]
  ]

  relay_records_sound :
      (rs : List OutboxRecord) (s : RelayState)
      → all_agree rs s.rows ≡ true
      → Honest s
      → Honest (relay_records config world rs s)
        × (events_of (relay_records config world rs s).rows ≡ events_of s.rows)
  unfolding relay_records
  relay_records_sound [] s agreed h = (h, refl)
  relay_records_sound (r ∷ rs) s agreed h =
      let s' = relay_record config world r s in
      let kept : events_of s'.rows ≡ events_of s.rows =
        relay_record-by (λ s2. events_of s2.rows ≡ events_of s.rows) r s (λ e. release-events r e s)
          (mark_published-events r (told r s)) in
      let honest : Honest s' =
        relay_record-by Honest r s (λ e. release-Honest r e s h)
          (mark_published-Honest r (told r s) (ground (arith, agreed))
            (ground (arith, eq_refl r.event.id))
            (is_honest-more s.acknowledged r.event.id s.rows h)) in
      let (later, same) =
        relay_records_sound rs s'
          (all_agree-events_of rs s.rows s'.rows kept ∙ ground (arith, agreed)) honest in
      (later, same ∙ kept)

  -- For a table with unique ids in which every row that is marked as published is of an event that
  -- the broker has acknowledged, whatever the broker, the decoding of envelopes, the clock, the
  -- locks of others and the lost updates: the same holds after a batch of the relay, which neither
  -- loses a row nor changes an event.
  pub process_batch-honest :
      (locked : ℕ → Bool) (now : Time) (s : RelayState)
      → has_unique_ids s.rows ≡ true
      → all_of (is_honest s.acknowledged) s.rows ≡ true
      → let s' = (process_batch config world locked now s).1 in
        (all_of (is_honest s'.acknowledged) s'.rows ≡ true)
        × (events_of s'.rows ≡ events_of s.rows)
        × (has_unique_ids s'.rows ≡ true)
  unfolding process_batch
  process_batch-honest locked now s unique h =
      let claimed = claim_outbox locked config.batch_size config.lease now s.rows in
      let (later, same) =
        relay_records_sound claimed.0 (record s { rows = claimed.1 })
          (claimed-agree locked config.batch_size config.lease now s.rows unique)
          (is_honest-claim_outbox locked config.batch_size config.lease now s.rows s.acknowledged
            h) in
      let kept = same ∙ events_of-claim_outbox locked config.batch_size config.lease now s.rows in
      (
        later,
        kept,
        has_unique_ids-events_of s.rows (process_batch config world locked now s).1.rows kept
            ∙ unique,
      )
