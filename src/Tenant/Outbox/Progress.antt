-- ===== src/Tenant/Outbox/Progress.antt =====
-- What a batch achieves: a record that can be published is, whatever happens to the others.
use gereh.Prelude.{
  Bool-cases, all_of, update_where, ok, err, Result-cases, Time, OutboxEvent, ◌==◌, nat_eq, ℕ, ◌+◌,
  ◌-◌, ◌≡◌, refl, sym, subst, inl, inr, Bool, true, false, ◌||◌, not, List, [], ◌∷◌, arith,
  string_eq,
}
use gereh.Tenant.Outbox.{
  OutboxRow, OutboxRecord, is_unset_time, claim_outbox, has_id, mark_outbox_published,
  release_outbox, backoff, Config, RelayState, World, release, publish_event, mark_published,
  relay_record, relay_records, process_batch,
}
use gereh.Tenant.Outbox.Delivery.{told, relay_record-by}
use gereh.Tenant.Outbox.Claims.{claims_id}

-- Whether every row with an id is marked as published.
abbrev pub is_done : ℕ → List OutboxRow → Bool
is_done o = all_of (λ row. not (has_id o row) || not (is_unset_time row.published_at))

is_done-mark :
    (o : ℕ) (now : Time) (rows : List OutboxRow)
    → is_done o (mark_outbox_published o now rows) ≡ true
unfolding mark_outbox_published update_where
is_done-mark o now [] = refl
is_done-mark o now (row ∷ rows) = ground (arith, is_done-mark o now rows)

is_done-mark_other :
    (o i : ℕ) (now : Time) (rows : List OutboxRow)
    → is_done o rows ≡ true
    → is_done o (mark_outbox_published i now rows) ≡ true
unfolding mark_outbox_published update_where
is_done-mark_other o i now [] h = refl
is_done-mark_other o i now (row ∷ rows) h = ground (arith, is_done-mark_other o i now rows)

-- A release touches no row that is marked as published.
is_done-release :
    (o i : ℕ) (retry_at : Time) (e : List ℕ) (rows : List OutboxRow)
    → is_done o rows ≡ true
    → is_done o (release_outbox i retry_at e rows) ≡ true
unfolding release_outbox update_where
is_done-release o i retry_at e [] h = refl
is_done-release o i retry_at e (row ∷ rows) h = ground (arith, is_done-release o i retry_at e rows)

module _ {M : Type 0} (config : Config) (world : World M) where
  -- Whether the envelope of an event is decoded and the broker accepts what it says.
  abbrev pub is_deliverable : OutboxEvent → Bool
  is_deliverable event = elim (world.decode event.envelope) [
    | err e ↦ false
    | ok envelope ↦ elim (world.publish event.topic event.key envelope) [
      | err e ↦ false
      | ok _ ↦ true
    ]
  ]

  is_done-released :
      (o : ℕ) (r : OutboxRecord) (e : List ℕ) (s : RelayState)
      → is_done o s.rows ≡ true
      → is_done o (release config world r e s).rows ≡ true
  unfolding release
  is_done-released o r e s h = ground (
    arith,
    h,
    is_done-release o r.outbox_id
        (world.time_of r.outbox_id + backoff config.max_backoff r.attempts) e s.rows h,
  )

  is_done-mark_published :
      (o : ℕ) (r : OutboxRecord) (s : RelayState)
      → is_done o s.rows ≡ true
      → is_done o (mark_published config world r s).rows ≡ true
  unfolding mark_published
  is_done-mark_published o r s h =
      ground (arith, h, is_done-mark_other o r.outbox_id (world.time_of r.outbox_id) s.rows h)

  relay_records-keeps :
      (o : ℕ) (rs : List OutboxRecord) (s : RelayState)
      → is_done o s.rows ≡ true
      → is_done o (relay_records config world rs s).rows ≡ true
  unfolding relay_records
  relay_records-keeps o [] s h = h
  relay_records-keeps o (r ∷ rs) s h = relay_records-keeps o rs (relay_record config world r s) (
      relay_record-by config world (λ s'. is_done o s'.rows ≡ true) r s
        (λ e. is_done-released o r e s h) (is_done-mark_published o r (told config world r s) h))

  relay_record-delivers :
      (r : OutboxRecord) (s : RelayState)
      → is_deliverable r.event ≡ true
      → world.reaches r.outbox_id ≡ true
      → is_done r.outbox_id (relay_record config world r s).rows ≡ true
  unfolding relay_record publish_event mark_published
  relay_record-delivers r s good answers = elim (Result-cases (world.decode r.event.envelope)) [
    | inr (e, d) ↦ cc (good, d)
    | inl (m, d) ↦ elim (Result-cases (world.publish r.event.topic r.event.key m)) [
      | inr (e, p) ↦ cc (good, d, p)
      | inl (u, p) ↦
          let marked : mark_outbox_published r.outbox_id (world.time_of r.outbox_id) s.rows
              ≡ (relay_record config world r s).rows =
            cc (d, p, answers) in
          subst (λ rows. is_done r.outbox_id rows ≡ true) marked
            (is_done-mark r.outbox_id (world.time_of r.outbox_id) s.rows)
    ]
  ]

  relay_records-delivers :
      (o : ℕ) (rs : List OutboxRecord) (s : RelayState)
      → world.reaches o ≡ true
      → claims_id o rs ≡ true
      → all_of (λ r. not (r.outbox_id == o) || is_deliverable r.event) rs ≡ true
      → is_done o (relay_records config world rs s).rows ≡ true
  unfolding relay_records
  relay_records-delivers o [] s answers h good = cc
  relay_records-delivers o (r ∷ rs) s answers h good = elim (Bool-cases (r.outbox_id == o)) [
    | inl same ↦
        let is : r.outbox_id ≡ o = (nat_eq.same_iff r.outbox_id o).0 same in
        relay_records-keeps o rs (relay_record config world r s) (
          subst (λ i. is_done i (relay_record config world r s).rows ≡ true) is
            (relay_record-delivers r s (ground (arith, good, same))
              (subst (λ i. world.reaches i ≡ true) (sym is) answers)))
    | inr different ↦
        relay_records-delivers o rs (relay_record config world r s) answers
          (ground (arith, h, different)) (ground (arith, good))
  ]

  -- The records of a claim have the events of their rows.
  claimed-deliverable :
      (locked : ℕ → Bool) (limit lease : ℕ) (now : Time) (rows : List OutboxRow) (o : ℕ)
      → all_of (λ row. not (has_id o row) || is_deliverable row.event) rows ≡ true
      → all_of
          (λ r. not (r.outbox_id == o) || is_deliverable r.event)
          (claim_outbox locked limit lease now rows).0
        ≡ true
  unfolding claim_outbox
  claimed-deliverable locked limit lease now [] o h = refl
  claimed-deliverable locked limit lease now (row ∷ rows) o h = ground (
    arith,
    claimed-deliverable locked (limit - 1) lease now rows o,
    claimed-deliverable locked limit lease now rows o,
  )

  -- When a batch of the relay has claimed an id, the envelope of each row of that id is decoded, the
  -- broker accepts its event and the database answers the update: after the batch each row of the
  -- id is marked as published, whatever happens to the other records of the batch.
  pub process_batch-publishes :
      (locked : ℕ → Bool) (now : Time) (s : RelayState) (o : ℕ)
      → claims_id o (claim_outbox locked config.batch_size config.lease now s.rows).0 ≡ true
      → all_of (λ row. not (has_id o row) || is_deliverable row.event) s.rows ≡ true
      → world.reaches o ≡ true
      → is_done o (process_batch config world locked now s).1.rows ≡ true
  unfolding process_batch
  process_batch-publishes locked now s o h good answers =
      let claimed = claim_outbox locked config.batch_size config.lease now s.rows in
      relay_records-delivers o claimed.0 (record s { rows = claimed.1 }) answers h
        (claimed-deliverable locked config.batch_size config.lease now s.rows o good)
