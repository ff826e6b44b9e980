-- ===== src/Events/Delivery.antt =====
-- What the dispatcher promises of an event, over any store that keeps its receipts.
use go_book.Base.{
  All, Bool, Bool-cases, List, Option, [], ap, arith, false, inl, inr, none, refl, some, true, ◌∷◌,
  ◌≡◌, ◌≢◌, ◌≤◌, ◌⊎◌,
}
use go_book.Base.Int.{leb_ℤ, ℤ, ◌<ℤ◌, ◌≤ℤ◌}
use go_book.Base.Result.{Result, err, ok}
use go_book.Base.Text.{Text}
use go_book.Events.Backoff.{after_failure}
use go_book.Events.Dispatcher.{
  Consumer, Dispatcher, OutboxStore, handle_failure, on_failure, on_result, process_event,
  run_consumer, run_consumers,
}
use go_book.Events.Envelope.{Envelope, Time}
use go_book.Events.Outbox.{ClaimedEvent}

-- The contract of a store: `done` is the receipts that a state holds.
pub record IsStore {P S : Type 0} (store : OutboxStore P S) (done : S → Text → Text → Bool)
    : Type 0 where
  -- A question changes nothing, and is answered or fails.
  pub reads :
      (consumer id : Text) (s : S)
      → (store.has_receipt consumer id s ≡ (s, ok (done s consumer id)))
        ⊎ ((cause : Text) × (store.has_receipt consumer id s ≡ (s, err cause)))
  -- What is recorded is on record, and what was on record stays.
  pub records :
      (consumer id : Text) (s s' : S)
      → store.record_receipt consumer id s ≡ (s', ok tt)
      → done s' consumer id ≡ true
  pub keeps :
      (consumer id other event : Text) (s : S)
      → done s other event ≡ true
      → done (store.record_receipt consumer id s).0 other event ≡ true

-- A consumer never takes a receipt back.
abbrev pub KeepsReceipts : {P S : Type 0} → (S → Text → Text → Bool) → Consumer P S → Type 0
KeepsReceipts {P} {S} done c =
    (e : Envelope P) (s : S) (other event : Text)
    → done s other event ≡ true
    → done (c.handle e s).0 other event ≡ true

on_result-inv :
    {S A : Type 0} (m : S × Result Text A) (next : A → S → S × Option Text) {s' : S}
    → on_result m (λ cause s. (s, some cause)) next ≡ (s', none)
    → (a : A) × (m.1 ≡ ok a) × (next a m.0 ≡ (s', none))
on_result-inv (s, ok a) next h = (a, refl, h)
on_result-inv (s, err cause) next h = cc

on_failure-inv :
    {S : Type 0} (m : S × Option Text) (next : S → S × Option Text) {s' : S}
    → on_failure m (λ cause s. (s, some cause)) next ≡ (s', none)
    → (m.1 ≡ none) × (next m.0 ≡ (s', none))
on_failure-inv (s, none) next h = (refl, h)
on_failure-inv (s, some cause) next h = cc

module _ {P S : Type 0} (store : OutboxStore P S) (done : S → Text → Text → Bool)
    (contract : IsStore store done) (e : ClaimedEvent P) where
  -- The consumer has no interest in the event, or has a receipt for it.
  abbrev pub IsServed : S → Consumer P S → Type 0
  IsServed s c = (c.handles e.envelope.event_type ≡ false) ⊎ (done s c.name e.outbox_id ≡ true)

  failure : (s : S) (cause : Text) {s' : S} → ◌≢◌ {A = S × Option Text} (s, some cause) (s', none)
  failure s cause h = cc

  run_consumer-done :
      (c : Consumer P S) (s s' : S)
      → KeepsReceipts done c
      → run_consumer store c e s ≡ (s', none)
      → (done s' c.name e.outbox_id ≡ true)
        × ((other event : Text) → done s other event ≡ true → done s' other event ≡ true)
  unfolding run_consumer
  run_consumer-done c s s' keep h =
      let id = e.outbox_id in
      elim (contract.reads c.name id s) [
        | inr (cause, failed) ↦ absurd (failure s cause (rw failed at h))
        | inl read ↦ elim (Bool-cases (done s c.name id)) [
          | inl before ↦
              let same : s ≡ s' = ap (λ (m : S × Option Text). m.0) (rw (read, before) at h) in
              (rw (← same) before, λ other event d. rw (← same) d)
          | inr new ↦
              let (_, handled, rest) =
                on_result-inv (c.handle e.envelope s) _ (rw (read, new) at h) in
              let s2 = (c.handle e.envelope s).0 in
              let (_, recorded, last) = on_result-inv (store.record_receipt c.name id s2) _ rest in
              let same : (store.record_receipt c.name id s2).0 ≡ s' =
                ap (λ (m : S × Option Text). m.0) last in
              (
                contract.records c.name id s2 s' (λ i. (same i, recorded i)),
                λ other event d.
                    rw (← same)
                      (contract.keeps c.name id other event s2 (keep e.envelope s other event d)),
              )
        ]
      ]

  run_consumers-IsServed :
      (cs : List (Consumer P S)) (s s' : S)
      → All (KeepsReceipts done) cs
      → run_consumers store cs e s ≡ (s', none)
      → All (IsServed s') cs
        × ((other event : Text) → done s other event ≡ true → done s' other event ≡ true)
  unfolding run_consumers
  run_consumers-IsServed [] s s' keep h =
      (tt, λ other event d. rw (← ap (λ (m : S × Option Text). m.0) h) d)
  run_consumers-IsServed (c ∷ cs) s s' keep h =
      elim (Bool-cases (c.handles e.envelope.event_type)) [
        | inr not_his ↦
            let (all, kept) = run_consumers-IsServed cs s s' keep.1 (rw not_his at h) in
            ((inl not_his, all), kept)
        | inl his ↦
            let (went, rest) = on_failure-inv (run_consumer store c e s) _ (rw his at h) in
            let s1 = (run_consumer store c e s).0 in
            let (served, first) = run_consumer-done c s s1 keep.0 (λ i. (s1, went i)) in
            let (all, kept) = run_consumers-IsServed cs s1 s' keep.1 rest in
            (
              (inr (kept c.name e.outbox_id served), all),
              λ other event d. kept other event (first other event d),
            )
      ]

  -- The store does not say whether a consumer that handles the event has a receipt.
  abbrev pub AnyUnread : S → Text → List (Consumer P S) → Type 0
  AnyUnread s cause [] = ⊥
  AnyUnread s cause (c ∷ cs) =
      ((c.handles e.envelope.event_type ≡ true)
        × (store.has_receipt c.name e.outbox_id s ≡ (s, err cause)))
      ⊎ AnyUnread s cause cs

  -- Redelivery.
  run_consumers_again :
      (cs : List (Consumer P S)) (s : S)
      → All (IsServed s) cs
      → (run_consumers store cs e s ≡ (s, none))
        ⊎ ((cause : Text) × AnyUnread s cause cs × (run_consumers store cs e s ≡ (s, some cause)))
  unfolding run_consumers run_consumer
  run_consumers_again [] s h = inl refl
  run_consumers_again (c ∷ cs) s (h, hs) = elim (Bool-cases (c.handles e.envelope.event_type)) [
    | inr not_his ↦ elim (run_consumers_again cs s hs) [
      | inl through ↦ rw not_his (inl through)
      | inr (cause, who, stopped) ↦ inr (cause, inr who, rw not_his stopped)
    ]
    | inl his ↦ elim (contract.reads c.name e.outbox_id s) [
      | inr (cause, failed) ↦ inr (cause, inl (his, failed), rw (his, failed) refl)
      | inl read ↦
          let served : done s c.name e.outbox_id ≡ true = ground arith in
          elim (run_consumers_again cs s hs) [
            | inl through ↦ rw (his, read, served) (inl through)
            | inr (cause, who, stopped) ↦ inr (cause, inr who, rw (his, read, served) stopped)
          ]
    ]
  ]

module _ {P S : Type 0} (random : ℤ → ℤ) (now : Time) (d : Dispatcher P S)
    (done : S → Text → Text → Bool) (contract : IsStore d.store done) where
  -- The event is given up where its attempts are used up, and otherwise to be tried again, not before now.
  abbrev pub IsGivenBack : ClaimedEvent P → Text → S → S → Type 0
  IsGivenBack e cause s s' =
      ((e.max_attempts ≤ℤ e.attempt_count) × (s' ≡ (d.store.mark_failed e.outbox_id cause s).0))
      ⊎ ((e.attempt_count <ℤ e.max_attempts)
          × (at : Time) × (now ≤ at)
          × (s' ≡ (d.store.mark_retry e.outbox_id at cause s).0))

  handle_failure-IsGivenBack :
      (e : ClaimedEvent P) (cause : Text) (s : S)
      → IsGivenBack e cause s (handle_failure random now d e cause s)
  unfolding handle_failure after_failure
  handle_failure-IsGivenBack e cause s = elim (Bool-cases (leb_ℤ e.max_attempts e.attempt_count)) [
    | inl used_up ↦ rw (handle_failure, after_failure, used_up) (inl (ground arith, refl))
    | inr left ↦ rw (handle_failure, after_failure, left) (inr (ground arith, _, omega arith, refl))
  ]

  -- The consumers have all been served, and the event is marked completed.
  pub record IsCompleted (e : ClaimedEvent P) (s' : S) : Type 0 where
    pub served : S
    pub all_served : All (IsServed d.store done contract e served) d.consumers
    pub marked : s' ≡ (d.store.mark_completed e.outbox_id served).0

  -- The consumers have stopped at a failure, and the event is given back.
  pub record IsPutBack (e : ClaimedEvent P) (s s' : S) : Type 0 where
    pub failed : S
    pub cause : Text
    pub stopped : run_consumers d.store d.consumers e s ≡ (failed, some cause)
    pub put_back : IsGivenBack e cause failed s'

  by_end :
      (e : ClaimedEvent P) (s : S)
      → All (KeepsReceipts done) d.consumers
      → (m : S × Option Text) → run_consumers d.store d.consumers e s ≡ m
      → let s' =
          on_failure m
            (handle_failure random now d e)
            λ s1. (d.store.mark_completed e.outbox_id s1).0 in
        IsCompleted e s' ⊎ IsPutBack e s s'
  by_end e s keep (s1, none) went = inl (record {
    served = s1;
    all_served = (run_consumers-IsServed d.store done contract e d.consumers s s1 keep went).0;
    marked = refl;
  })
  by_end e s keep (s1, some cause) stopped = inr (record {
    failed = s1;
    cause = cause;
    stopped = stopped;
    put_back = handle_failure-IsGivenBack e cause s1;
  })

  -- An event is marked completed only in a state where every consumer that handles its type has a
  -- receipt for it. Otherwise the store or a consumer has failed: then the event is marked failed with
  -- that cause if its attempts are used up, and else marked for a retry, not before now. The store keeps
  -- its receipts, and so do the consumers.
  pub process_event-IsProcessed :
      (e : ClaimedEvent P) (s : S)
      → All (KeepsReceipts done) d.consumers
      → IsCompleted e (process_event random now d e s)
        ⊎ IsPutBack e s (process_event random now d e s)
  unfolding process_event
  process_event-IsProcessed e s keep = by_end e s keep (run_consumers d.store d.consumers e s) refl

  -- An event that is delivered again when its consumers have all got their receipts: none of them changes
  -- anything, and the event is marked completed; only where the store cannot be asked for the receipt of
  -- one of them is it marked failed or for a retry instead, with that cause.
  pub process_event_again :
      (e : ClaimedEvent P) (s : S)
      → All (IsServed d.store done contract e s) d.consumers
      → (process_event random now d e s ≡ (d.store.mark_completed e.outbox_id s).0)
        ⊎ ((cause : Text) × AnyUnread d.store done contract e s cause d.consumers
            × IsGivenBack e cause s (process_event random now d e s))
  unfolding process_event
  process_event_again e s h = elim (run_consumers_again d.store done contract e d.consumers s h) [
    | inl through ↦ inl (rw through refl)
    | inr (cause, who, stopped) ↦
        inr (cause, who, rw stopped (handle_failure-IsGivenBack e cause s))
  ]
