-- ===== src/Events/Dispatcher.antt =====
-- internal/events/dispatcher.go: the polling loop. The store and the consumers act on a state `S`, which
-- is the database and whatever else the consumers change; an error is its message. Logging is left out.
use go_book.Base.{
  Bool, List, Option, [], false, if◌then◌else◌, length, ltb, none, some, true, ℕ, ◌==◌, ◌||◌, ◌∷◌,
}
use go_book.Base.Int.{leb_ℤ, ltb_ℤ, pos, ℤ}
use go_book.Base.Result.{Result, err, fail_if, ok, ◌>>=◌, ◌>>◌}
use go_book.Base.Text.{Text, byte_length, is_blank, text_eq}
use go_book.Events.Backoff.{after_failure}
use go_book.Events.Envelope.{Envelope, Time}
use go_book.Events.Outbox.{ClaimedEvent}
use go_book.Events.Backoff.{AfterFailure as AfterFailure}

-- `OutboxStore`
pub record OutboxStore (P S : Type 0) : Type 0 where
  pub claim_batch : Text → ℤ → S → S × Result Text (List (ClaimedEvent P))
  pub mark_completed : Text → S → S × Result Text (Unit {0})
  pub mark_retry : Text → Time → Text → S → S × Result Text (Unit {0})
  pub mark_failed : Text → Text → S → S × Result Text (Unit {0})
  pub release_stale : ℤ → S → S × Result Text ℕ
  pub has_receipt : Text → Text → S → S × Result Text Bool
  pub record_receipt : Text → Text → S → S × Result Text (Unit {0})

pub record Consumer (P S : Type 0) : Type 0 where
  pub name : Text
  pub handles : Text → Bool
  pub handle : Envelope P → S → S × Result Text (Unit {0})

pub record DispatcherConfig (P S : Type 0) : Type 0 where
  pub store : Option (OutboxStore P S)
  pub consumers : List (Option (Consumer P S))
  pub poll_interval : ℤ
  pub batch_size : ℤ
  pub lock_lease : ℤ
  pub worker_id : Text
  pub backoff_base : ℤ
  pub backoff_cap : ℤ

pub record Dispatcher (P S : Type 0) : Type 0 where
  pub store : OutboxStore P S
  pub consumers : List (Consumer P S)
  pub poll_interval : ℤ
  pub batch_size : ℤ
  pub lock_lease : ℤ
  pub worker_id : Text
  pub backoff_base : ℤ
  pub backoff_cap : ℤ

pub data DispatcherError : Type 0 where
  store_required consumer_required nil_consumer bad_consumer_name duplicate_consumer :
      DispatcherError
  worker_id_required poll_not_positive batch_not_positive : DispatcherError
  lock_lease_not_positive base_not_positive cap_below_base : DispatcherError

name_seen : Text → List Text → Bool
name_seen name [] = false
name_seen name (other ∷ others) = text_eq name other || name_seen name others

-- What follows a call of the store or of a consumer, by how it ended.
abbrev pub on_result {ℓ} :
    {S A : Type 0} {B : Type ℓ} → S × Result Text A → (Text → S → B) → (A → S → B) → B
on_result (s, err cause) failing next = failing cause s
on_result (s, ok a) failing next = next a s

-- The same for a step that may have failed.
abbrev pub on_failure {ℓ} :
    {S : Type 0} {B : Type ℓ} → S × Option Text → (Text → S → B) → (S → B) → B
on_failure (s, some cause) failing next = failing cause s
on_failure (s, none) failing next = next s

abbrev stop : {S : Type 0} → Text → S → S × Option Text
stop cause s = (s, some cause)

module _ {P S : Type 0} where
  -- The loop over the consumers of a configuration.
  check_consumers :
      List Text → List (Option (Consumer P S)) → Result DispatcherError (List (Consumer P S))
  check_consumers names [] = ok []
  check_consumers names (none ∷ rest) = err nil_consumer
  check_consumers names (some c ∷ rest) = do
    fail_if (is_blank c.name || ltb 120 (byte_length c.name)) bad_consumer_name
    fail_if (name_seen c.name names) duplicate_consumer
    others ← check_consumers (c.name ∷ names) rest
    ok (c ∷ others)

  abbrev need_store : Option (OutboxStore P S) → Result DispatcherError (OutboxStore P S)
  need_store none = err store_required
  need_store (some store) = ok store

  -- `NewDispatcher`
  new_dispatcher : DispatcherConfig P S → Result DispatcherError (Dispatcher P S)
  new_dispatcher cfg = do
    store ← need_store cfg.store
    fail_if (length cfg.consumers == 0) consumer_required
    consumers ← check_consumers [] cfg.consumers
    fail_if (is_blank cfg.worker_id) worker_id_required
    fail_if (leb_ℤ cfg.poll_interval (pos 0)) poll_not_positive
    fail_if (leb_ℤ cfg.batch_size (pos 0)) batch_not_positive
    fail_if (leb_ℤ cfg.lock_lease (pos 0)) lock_lease_not_positive
    fail_if (leb_ℤ cfg.backoff_base (pos 0)) base_not_positive
    fail_if (ltb_ℤ cfg.backoff_cap cfg.backoff_base) cap_below_base
    ok (record {
      store = store;
      consumers = consumers;
      poll_interval = cfg.poll_interval;
      batch_size = cfg.batch_size;
      lock_lease = cfg.lock_lease;
      worker_id = cfg.worker_id;
      backoff_base = cfg.backoff_base;
      backoff_cap = cfg.backoff_cap;
    })

  -- One consumer that handles the event: the state after it, and its failure.
  unfoldable pub run_consumer :
      OutboxStore P S → Consumer P S → ClaimedEvent P → S → S × Option Text
  run_consumer store c e s = on_result (store.has_receipt c.name e.outbox_id s) stop λ is_done s1.
      if is_done
      then (s1, none)
      else on_result (c.handle e.envelope s1) stop
          λ _ s2. on_result (store.record_receipt c.name e.outbox_id s2) stop λ _ s3. (s3, none)

  -- The loop of `processEvent`: the first failure ends it.
  unfoldable pub run_consumers :
      OutboxStore P S → List (Consumer P S) → ClaimedEvent P → S → S × Option Text
  run_consumers store [] e s = (s, none)
  run_consumers store (c ∷ cs) e s = elim (c.handles e.envelope.event_type) [
    | false ↦ run_consumers store cs e s
    | true ↦ on_failure (run_consumer store c e s) stop λ s1. run_consumers store cs e s1
  ]

  -- `handleFailure`
  unfoldable pub handle_failure : (ℤ → ℤ) → Time → Dispatcher P S → ClaimedEvent P → Text → S → S
  handle_failure random now d e cause s =
      elim (after_failure random d.backoff_base d.backoff_cap e.attempt_count e.max_attempts now) [
        | AfterFailure.mark_failed ↦ (d.store.mark_failed e.outbox_id cause s).0
        | AfterFailure.mark_retry at ↦ (d.store.mark_retry e.outbox_id at cause s).0
      ]

  unfoldable pub process_event : (ℤ → ℤ) → Time → Dispatcher P S → ClaimedEvent P → S → S
  process_event random now d e s =
      on_failure (run_consumers d.store d.consumers e s) (handle_failure random now d e)
        λ s1. (d.store.mark_completed e.outbox_id s1).0

  -- The events of a batch in turn, until the context is cancelled.
  process_batch : (ℤ → ℤ) → Time → (S → Bool) → Dispatcher P S → List (ClaimedEvent P) → S → S
  process_batch random now cancelled d [] s = s
  process_batch random now cancelled d (e ∷ es) s = elim (cancelled s) [
    | true ↦ s
    | false ↦ process_batch random now cancelled d es (process_event random now d e s)
  ]

  tick : (ℤ → ℤ) → Time → (S → Bool) → Dispatcher P S → S → S
  tick random now cancelled d s =
      on_result
        (d.store.claim_batch d.worker_id d.batch_size (d.store.release_stale d.lock_lease s).0)
        (λ _ s1. s1) λ claimed s1. process_batch random now cancelled d claimed s1
