-- ===== src/Events/Backoff.antt =====
-- internal/events/state.go and dispatcher.go: the states of an outbox event, and when a failed event is
-- tried again. A duration is an int64 of nanoseconds. `rand.Int63n` is a parameter.
use go_book.Base.{Bool, false, if◌then◌else◌, ltb, true, ℕ, ◌+◌, ◌-◌, ◌^◌, ◌||◌}
use go_book.Base.Int.{add64, leb_ℤ, ltb_ℤ, mul64, pos, pos_part, quot, ℤ}
use go_book.Base.Text.{Text}
use go_book.Events.Envelope.{Time}

pub data OutboxState : Type 0 where
  outbox_pending outbox_processing outbox_completed outbox_failed : OutboxState
  other_outbox : Text → OutboxState

-- `OutboxState.CanTransitionTo`
unfoldable pub outbox_can_transition : OutboxState → OutboxState → Bool
outbox_can_transition outbox_pending outbox_processing = true
outbox_can_transition outbox_pending outbox_failed = true
outbox_can_transition outbox_processing outbox_pending = true
outbox_can_transition outbox_processing outbox_completed = true
outbox_can_transition outbox_processing outbox_failed = true
outbox_can_transition _ _ = false

-- The attempt less one, from 0 to 62.
abbrev pub shift_of : ℤ → ℕ
shift_of attempt =
    let first = if ltb_ℤ attempt (pos 1) then pos 1 else attempt in
    let shift = pos_part first - 1 in if ltb 62 shift then 62 else shift

unfoldable pub capped_delay : ℤ → ℤ → ℤ → ℤ
capped_delay base cap attempt =
    let delay = mul64 base (pos (2 ^ shift_of attempt)) in
    if leb_ℤ delay (pos 0) || ltb_ℤ cap delay then cap else delay

-- `Dispatcher.backoffDelay`
unfoldable pub backoff_delay : (ℤ → ℤ) → ℤ → ℤ → ℤ → ℤ
backoff_delay random base cap attempt =
    let half = quot (capped_delay base cap attempt) (pos 2) in
    let jitter = if ltb_ℤ (pos 0) half then random (add64 half (pos 1)) else pos 0 in
    add64 half jitter

-- What becomes of an event that a consumer has failed on.
pub data AfterFailure : Type 0 where
  mark_failed : AfterFailure
  mark_retry : Time → AfterFailure

-- `Dispatcher.handleFailure`, the call it makes to the store; a time is after the zero time by `now`.
unfoldable pub after_failure : (ℤ → ℤ) → ℤ → ℤ → ℤ → ℤ → Time → AfterFailure
after_failure random base cap attempts max_attempts now =
    if leb_ℤ max_attempts attempts
    then mark_failed
    else mark_retry (now + pos_part (backoff_delay random base cap attempts))
