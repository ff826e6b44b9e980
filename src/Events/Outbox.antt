-- ===== src/Events/Outbox.antt =====
-- internal/eventspg/store.go: the outbox table and its statements, each one SQL statement over all rows.
-- `now` is the time of the database. A connection that fails is an error and no change; the dispatcher
-- meets it as an error of the store. The statements give back rows in the order of the table.
use go_book.Base.{
  Bool, List, Option, [], false, if◌then◌else◌, leb, length, ltb, none, some, suc, true, zero, ℕ,
  ◌&&◌, ◌+◌, ◌-◌, ◌==◌, ◌||◌, ◌∷◌,
}
use go_book.Base.Int.{leb_ℤ, pos, pos_part, ℤ}
use go_book.Base.Result.{Result, err, fail_if, ok}
use go_book.Base.Text.{Text, byte_length, codes, is_blank, text_eq, trim_space}
use go_book.Events.Backoff.{
  OutboxState, outbox_completed, outbox_failed, outbox_pending, outbox_processing,
}
use go_book.Events.Envelope.{Envelope, EnvelopeError, Time}

pub record OutboxRow (P : Type 0) : Type 0 where
  pub envelope : Envelope P
  pub available_at : Time
  pub state : OutboxState
  pub attempt_count : ℤ
  pub max_attempts : ℤ
  pub locked_at : Option Time
  pub locked_by : Option Text
  pub completed_at : Option Time
  pub failed_at : Option Time
  pub last_error : Option Text

-- The tables `outbox_events` and `event_receipts`; a receipt is a consumer and an event.
pub record Outbox (P : Type 0) : Type 0 where
  pub rows : List (OutboxRow P)
  pub receipts : List (Text × Text)

-- `ClaimedEvent`; its outbox ID is the ID of the envelope.
pub record ClaimedEvent (P : Type 0) : Type 0 where
  pub envelope : Envelope P
  pub outbox_id : Text
  pub attempt_count : ℤ
  pub max_attempts : ℤ

pub data StoreError : Type 0 where
  worker_required limit_not_positive lease_not_positive max_attempts_out_of_range : StoreError
  not_in_processing_state : StoreError
  invalid_event : EnvelopeError → StoreError
  pool_failed : Text → StoreError

abbrev pub is_pending : OutboxState → Bool
is_pending outbox_pending = true
is_pending _ = false

abbrev is_processing : OutboxState → Bool
is_processing outbox_processing = true
is_processing _ = false

-- The first 2000 code points of the trimmed message.
abbrev take : ℕ → Text → Text
take zero s = []
take (suc n) [] = []
take (suc n) (c ∷ s) = c ∷ take n s

pub truncate_error : Text → Text
truncate_error msg =
    let trimmed = trim_space msg in
    if leb (byte_length trimmed) 2000
    then trimmed
    else if leb (length trimmed) 2000
    then trimmed
    else take 2000 trimmed

unfoldable pub has_receipt_in : Text → Text → List (Text × Text) → Bool
has_receipt_in consumer event_id [] = false
has_receipt_in consumer event_id ((c, e) ∷ rest) =
    (text_eq c consumer && text_eq e event_id) || has_receipt_in consumer event_id rest

module _ {P : Type 0} where
  -- `UPDATE … WHERE test`: the rows, and how many the statement has changed.
  unfoldable pub update_where :
      (OutboxRow P → Bool) → (OutboxRow P → OutboxRow P) → List (OutboxRow P) → List (OutboxRow P)
  update_where test change [] = []
  update_where test change (r ∷ rs) = (if test r then change r else r) ∷ update_where test change rs

  unfoldable pub affected : (OutboxRow P → Bool) → List (OutboxRow P) → ℕ
  affected test [] = 0
  affected test (r ∷ rs) = (if test r then 1 else 0) + affected test rs

  abbrev pub in_processing : Text → OutboxRow P → Bool
  in_processing id r = text_eq r.envelope.id id && is_processing r.state

  -- The common shape of the three marks.
  unfoldable pub mark :
      Text → (OutboxRow P → OutboxRow P) → Outbox P → Outbox P × Result StoreError (Unit {0})
  mark id change o = (
    record o { rows = update_where (in_processing id) change o.rows },
    fail_if (affected (in_processing id) o.rows == 0) not_in_processing_state,
  )

  abbrev pub completed : Time → OutboxRow P → OutboxRow P
  completed now r = record r {
    state = outbox_completed;
    completed_at = some now;
    locked_at = none;
    locked_by = none;
    failed_at = none;
    last_error = none;
  }

  unfoldable pub mark_completed : Time → Text → Outbox P → Outbox P × Result StoreError (Unit {0})
  mark_completed now id = mark id (completed now)

  abbrev pub retried : Time → Text → OutboxRow P → OutboxRow P
  retried at message r = record r {
    state = outbox_pending;
    available_at = at;
    locked_at = none;
    locked_by = none;
    completed_at = none;
    failed_at = none;
    last_error = some message;
  }

  unfoldable pub mark_retry :
      Text → Time → Text → Outbox P → Outbox P × Result StoreError (Unit {0})
  mark_retry id at last_error = mark id (retried at (truncate_error last_error))

  abbrev pub failed : Time → Text → OutboxRow P → OutboxRow P
  failed now message r = record r {
    state = outbox_failed;
    failed_at = some now;
    locked_at = none;
    locked_by = none;
    completed_at = none;
    last_error = some message;
  }

  unfoldable pub mark_failed :
      Time → Text → Text → Outbox P → Outbox P × Result StoreError (Unit {0})
  mark_failed now id last_error =
      let message = truncate_error last_error in
      mark id (failed now (if is_blank message then codes "unknown error" else message))

  abbrev pub released : OutboxRow P → OutboxRow P
  released r = record r { state = outbox_pending; locked_at = none; locked_by = none }

  -- `locked_at < cutoff`, which a missing lock never meets.
  abbrev pub is_stale : Time → OutboxRow P → Bool
  is_stale cutoff r =
      is_processing r.state && elim r.locked_at [ none ↦ false | some at ↦ ltb at cutoff ]

  -- The cutoff stops at the zero time.
  unfoldable pub release_stale : Time → ℤ → Outbox P → Outbox P × Result StoreError ℕ
  release_stale now older_than o =
      if leb_ℤ older_than (pos 0)
      then (o, err lease_not_positive)
      else (let stale = is_stale (now - pos_part older_than) in
          (record o { rows = update_where stale released o.rows }, ok (affected stale o.rows)))
