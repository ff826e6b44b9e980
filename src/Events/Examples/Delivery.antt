-- ===== src/Events/Examples/Delivery.antt =====
-- One event, one consumer, and the outbox tables as the store.
use go_book.Base.{[], inr, refl, true, ◌∷◌, ◌≡◌, ◌⊎◌}
use go_book.Base.Int.{pos, ℤ, ◌+ℤ◌}
use go_book.Base.Result.{ok}
use go_book.Base.Text.{Text, codes, is_blank, is_space, trim_left, trim_space}
use go_book.Events.Claim.{
  as_claimed, claim_batch, claimed, due_rows, first_ids, fresh, has_receipt, insert_due, is_among,
  record_receipt, returning,
}
use go_book.Events.Delivery.{
  AnyUnread, IsCompleted, IsGivenBack, IsPutBack, process_event-IsProcessed, process_event_again,
}
use go_book.Events.Dispatcher.{Consumer, Dispatcher, process_event, run_consumer, run_consumers}
use go_book.Events.Envelope.{Envelope, match_result_verified}
use go_book.Events.Outbox.{
  Outbox, OutboxRow, affected, completed, has_receipt_in, mark, mark_completed, update_where,
}
use go_book.Events.Table.{has, outbox_store, outbox_store-IsStore}

abbrev settled_event : Envelope Text
settled_event = record {
  id = codes "11111111-1111-4111-8111-111111111111";
  aggregate_type = codes "match";
  aggregate_id = codes "22222222-2222-4222-8222-222222222222";
  aggregate_version = pos 1;
  event_type = match_result_verified;
  payload = codes "{}";
  occurred_at = 10;
  correlation_id = [];
  causation_id = [];
}

abbrev waiting_row : OutboxRow Text
waiting_row = fresh 20 settled_event (pos 3)

abbrev waiting_outbox : Outbox Text
waiting_outbox = record { rows = waiting_row ∷ []; receipts = [] }

abbrev claimed_row : OutboxRow Text
claimed_row = claimed 30 (codes "worker") waiting_row

abbrev busy_outbox : Outbox Text
busy_outbox = record { rows = claimed_row ∷ []; receipts = [] }

claimed_ok :
    claim_batch 30 (codes "worker") (pos 10) waiting_outbox
    ≡ (busy_outbox, ok (as_claimed claimed_row ∷ []))
unfolding claim_batch is_blank trim_space trim_left is_space due_rows insert_due first_ids is_among
    update_where returning ◌+ℤ◌
claimed_ok = refl

-- A consumer that does nothing.
abbrev quiet : Consumer Text (Outbox Text)
quiet = record { name = codes "quiet"; handles = λ t. true; handle = λ e o. (o, ok tt) }

abbrev worker : Dispatcher Text (Outbox Text)
worker = record {
  store = outbox_store 40;
  consumers = quiet ∷ [];
  poll_interval = pos 1;
  batch_size = pos 10;
  lock_lease = pos 60;
  worker_id = codes "worker";
  backoff_base = pos 5;
  backoff_cap = pos 300;
}

abbrev no_jitter : ℤ → ℤ
no_jitter n = pos 0

abbrev done_outbox : Outbox Text
done_outbox = record {
  rows = completed 40 claimed_row ∷ [];
  receipts = (codes "quiet", settled_event.id) ∷ [];
}

processed : process_event no_jitter 40 worker (as_claimed claimed_row) busy_outbox ≡ done_outbox
unfolding process_event run_consumers run_consumer record_receipt has_receipt has_receipt_in
    mark_completed mark update_where affected
processed = refl

process_event-IsProcessed_example :
    IsCompleted no_jitter 40 worker has
      (outbox_store-IsStore 40)
      (as_claimed claimed_row)
      (process_event no_jitter 40 worker (as_claimed claimed_row) busy_outbox)
    ⊎ IsPutBack no_jitter 40 worker has
        (outbox_store-IsStore 40)
        (as_claimed claimed_row)
        busy_outbox
        (process_event no_jitter 40 worker (as_claimed claimed_row) busy_outbox)
process_event-IsProcessed_example =
    process_event-IsProcessed no_jitter 40 worker has (outbox_store-IsStore 40)
      (as_claimed claimed_row) busy_outbox ((λ e o other event kept. kept), tt)

received : has done_outbox (codes "quiet") settled_event.id ≡ true
unfolding has_receipt has_receipt_in
received = refl

process_event_again_example :
    (process_event no_jitter 40 worker (as_claimed claimed_row) done_outbox
      ≡ (worker.store.mark_completed settled_event.id done_outbox).0)
    ⊎ ((cause : Text) × AnyUnread worker.store has
          (outbox_store-IsStore 40)
          (as_claimed claimed_row)
          done_outbox
          cause
          worker.consumers
        × IsGivenBack no_jitter 40 worker has
            (outbox_store-IsStore 40)
            (as_claimed claimed_row)
            cause
            done_outbox
            (process_event no_jitter 40 worker (as_claimed claimed_row) done_outbox))
process_event_again_example =
    process_event_again no_jitter 40 worker has (outbox_store-IsStore 40) (as_claimed claimed_row)
      done_outbox (inr received, tt)
