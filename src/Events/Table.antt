-- ===== src/Events/Table.antt =====
-- The outbox tables as the store of the dispatcher, and that they keep its contract.
use go_book.Base.{Bool, ap, arith, inl, refl, true, ◌≡◌}
use go_book.Base.Result.{Result, err, ok}
use go_book.Base.Text.{Text, codes, text_eq_refl}
use go_book.Events.Claim.{claim_batch, has_receipt, record_receipt}
use go_book.Events.Delivery.{IsStore}
use go_book.Events.Dispatcher.{OutboxStore}
use go_book.Events.Envelope.{Time}
use go_book.Events.Outbox.{
  Outbox, StoreError, has_receipt_in, invalid_event, lease_not_positive, limit_not_positive,
  mark_completed, max_attempts_out_of_range, not_in_processing_state, pool_failed, release_stale,
  worker_required,
}
use go_book.Events.Outbox

-- The text of an error; only that it is some text matters.
abbrev message : StoreError → Text
message worker_required = codes "worker id is required"
message limit_not_positive = codes "limit must be positive"
message lease_not_positive = codes "lease duration must be positive"
message max_attempts_out_of_range = codes "max attempts must be between 1 and 100"
message not_in_processing_state = codes "not in processing state"
message (invalid_event _) = codes "invalid envelope"
message (pool_failed text) = text

abbrev told : {S A : Type 0} → S × Result StoreError A → S × Result Text A
told (s, ok a) = (s, ok a)
told (s, err e) = (s, err (message e))

module _ {P : Type 0} where
  -- `eventspg.Store` at the time `now` of the database.
  abbrev pub outbox_store : Time → OutboxStore P (Outbox P)
  outbox_store now = record {
    claim_batch = λ worker_id limit o. told (claim_batch now worker_id limit o);
    mark_completed = λ id o. told (mark_completed now id o);
    mark_retry = λ id at cause o. told (Outbox.mark_retry id at cause o);
    mark_failed = λ id cause o. told (Outbox.mark_failed now id cause o);
    release_stale = λ older_than o. told (release_stale now older_than o);
    has_receipt = λ consumer id o. (o, ok (has_receipt consumer id o));
    record_receipt = λ consumer id o. (record_receipt consumer id o, ok tt);
  }

  abbrev pub has : Outbox P → Text → Text → Bool
  has o consumer id = has_receipt consumer id o

  recorded :
      (consumer id : Text) (o : Outbox P) → has (record_receipt consumer id o) consumer id ≡ true
  unfolding record_receipt has_receipt has_receipt_in
  recorded consumer id o = ground (arith, text_eq_refl consumer, text_eq_refl id)

  kept :
      (consumer id other event : Text) (o : Outbox P)
      → has o other event ≡ true
      → has (record_receipt consumer id o) other event ≡ true
  unfolding record_receipt has_receipt has_receipt_in
  kept consumer id other event o h = ground arith

  pub outbox_store-IsStore : (now : Time) → IsStore (outbox_store now) has
  outbox_store-IsStore now = record {
    reads = λ consumer id s. inl refl;
    records = λ consumer id s s' e.
        rw (← ap (λ (m : Outbox P × Result Text (Unit {0})). m.0) e) (recorded consumer id s);
    keeps = kept;
  }
