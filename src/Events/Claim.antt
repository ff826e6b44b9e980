-- ===== src/Events/Claim.antt =====
-- internal/eventspg/store.go: what writes to the outbox and takes from it, and the receipts. Two workers
-- that claim at once skip each other's rows; a claim stands for one statement.
use go_book.Base.{
  Bool, List, [], false, if◌then◌else◌, leb, ltb, none, not, some, suc, zero, ℕ, ◌&&◌, ◌++◌, ◌==◌,
  ◌||◌, ◌∷◌,
}
use go_book.Base.Int.{eqb_ℤ, leb_ℤ, ltb_ℤ, pos, pos_part, ℤ, ◌+ℤ◌}
use go_book.Base.Result.{Result, err, ok}
use go_book.Base.Text.{Text, codes, is_blank, text_eq, text_lt}
use go_book.Events.Backoff.{outbox_pending, outbox_processing}
use go_book.Events.Envelope.{Envelope, Time, validate_envelope}
use go_book.Events.Outbox.{
  ClaimedEvent, Outbox, OutboxRow, StoreError, has_receipt_in, invalid_event, is_pending,
  limit_not_positive, max_attempts_out_of_range, pool_failed, update_where, worker_required,
}

module _ {P : Type 0} where
  abbrev pub is_due : Time → OutboxRow P → Bool
  is_due now r = is_pending r.state && leb r.available_at now

  -- `ORDER BY available_at, occurred_at, id`
  abbrev comes_before : OutboxRow P → OutboxRow P → Bool
  comes_before a b =
      ltb a.available_at b.available_at
      || (a.available_at == b.available_at
          && (ltb a.envelope.occurred_at b.envelope.occurred_at
              || (a.envelope.occurred_at == b.envelope.occurred_at
                  && not (text_lt b.envelope.id a.envelope.id))))

  unfoldable pub insert_due : OutboxRow P → List (OutboxRow P) → List (OutboxRow P)
  insert_due r [] = r ∷ []
  insert_due r (s ∷ ss) =
      let rest = insert_due r ss in if comes_before r s then r ∷ s ∷ ss else s ∷ rest

  unfoldable pub due_rows : Time → List (OutboxRow P) → List (OutboxRow P)
  unfolding insert_due
  due_rows now [] = []
  due_rows now (r ∷ rs) =
      let rest = due_rows now rs in if is_due now r then insert_due r rest else rest

  -- The IDs of the first `limit` rows.
  unfoldable pub first_ids : ℕ → List (OutboxRow P) → List Text
  first_ids zero rs = []
  first_ids (suc n) [] = []
  first_ids (suc n) (r ∷ rs) = r.envelope.id ∷ first_ids n rs

  unfoldable pub is_among : List Text → OutboxRow P → Bool
  is_among [] r = false
  is_among (id ∷ ids) r = text_eq id r.envelope.id || is_among ids r

  abbrev pub claimed : Time → Text → OutboxRow P → OutboxRow P
  claimed now worker_id r = record r {
    state = outbox_processing;
    locked_at = some now;
    locked_by = some worker_id;
    attempt_count = r.attempt_count +ℤ pos 1;
  }

  abbrev pub as_claimed : OutboxRow P → ClaimedEvent P
  as_claimed r = record {
    envelope = r.envelope;
    outbox_id = r.envelope.id;
    attempt_count = r.attempt_count;
    max_attempts = r.max_attempts;
  }

  -- `RETURNING`: the rows that the statement has changed.
  unfoldable pub returning :
      (OutboxRow P → Bool)
      → (OutboxRow P → OutboxRow P)
      → List (OutboxRow P)
      → List (ClaimedEvent P)
  returning test change [] = []
  returning test change (r ∷ rs) =
      let rest = returning test change rs in if test r then as_claimed (change r) ∷ rest else rest

  -- The attempt count is an `integer` column of at most 2 ^ 31 - 1.
  unfoldable pub claim_batch :
      Time → Text → ℤ → Outbox P → Outbox P × Result StoreError (List (ClaimedEvent P))
  claim_batch now worker_id limit o =
      if is_blank worker_id
      then (o, err worker_required)
      else if leb_ℤ limit (pos 0)
      then (o, err limit_not_positive)
      else (let taken = is_among (first_ids (pos_part limit) (due_rows now o.rows)) in
          (
            record o { rows = update_where taken (claimed now worker_id) o.rows },
            ok (returning taken (claimed now worker_id) o.rows),
          ))

  abbrev pub same_event : Envelope P → OutboxRow P → Bool
  same_event e r =
      text_eq r.envelope.aggregate_type e.aggregate_type
      && text_eq r.envelope.aggregate_id e.aggregate_id
      && eqb_ℤ r.envelope.aggregate_version e.aggregate_version
      && text_eq r.envelope.event_type e.event_type

  pub is_published : Envelope P → List (OutboxRow P) → Bool
  is_published e [] = false
  is_published e (r ∷ rs) = same_event e r || is_published e rs

  unfoldable pub id_taken : Text → List (OutboxRow P) → Bool
  id_taken id [] = false
  id_taken id (r ∷ rs) = text_eq id r.envelope.id || id_taken id rs

  -- A fresh row, with the defaults of the table.
  abbrev pub fresh : Time → Envelope P → ℤ → OutboxRow P
  fresh now e max_attempts = record {
    envelope = e;
    available_at = now;
    state = outbox_pending;
    attempt_count = pos 0;
    max_attempts = max_attempts;
    locked_at = none;
    locked_by = none;
    completed_at = none;
    failed_at = none;
    last_error = none;
  }

  -- `Publish`. An ID that another event has is an error of the primary key.
  unfoldable pub publish :
      Time → Envelope P → ℤ → Outbox P → Outbox P × Result StoreError (Unit {0})
  publish now e max_attempts o = elim (validate_envelope e) [
    | err x ↦ (o, err (invalid_event x))
    | ok _ ↦
        if ltb_ℤ max_attempts (pos 1) || ltb_ℤ (pos 100) max_attempts
        then (o, err max_attempts_out_of_range)
        else if is_published e o.rows
        then (o, ok tt)
        else if id_taken e.id o.rows
        then (o, err (pool_failed (codes "outbox_events_pkey")))
        else (record o { rows = o.rows ++ fresh now e max_attempts ∷ [] }, ok tt)
  ]

  -- `HasReceipt`
  unfoldable pub has_receipt : Text → Text → Outbox P → Bool
  has_receipt consumer event_id o = has_receipt_in consumer event_id o.receipts

  -- `RecordReceipt`
  unfoldable pub record_receipt : Text → Text → Outbox P → Outbox P
  record_receipt consumer event_id o =
      if has_receipt_in consumer event_id o.receipts
      then o
      else record o { receipts = (consumer, event_id) ∷ o.receipts }
