-- ===== src/Betting/Errors.antt =====
-- internal/betting/errors.go. An error that wraps one of these values is that one; messages, and the
-- operation and state that a `TransitionError` prints, are left out.
use go_book.Base.Result.{Result, err, ok}
use go_book.Events.Envelope.{EnvelopeError}
use go_book.Ledger.Money.{LedgerError}

pub data Error : Type 0 where
  invalid invalid_transition unauthorized reason_required not_found already_exists : Error
  idempotency_conflict market_not_open selection_inactive selection_mismatch : Error
  user_restricted stake_above_limit payout_above_limit : Error
  parlay_too_few_legs parlay_too_many_legs parlay_market_not_eligible : Error
  side_full parlay_duplicate_market parlay_too_short : Error
  incomplete_outcome wager_market_mismatch : Error
  of_ledger : LedgerError → Error
  of_envelope : EnvelopeError → Error

-- The error of a call into another package is handed on.
abbrev pub from_ledger {ℓ} : {A : Type ℓ} → Result LedgerError A → Result Error A
from_ledger (ok a) = ok a
from_ledger (err e) = err (of_ledger e)

abbrev pub from_envelope {ℓ} : {A : Type ℓ} → Result EnvelopeError A → Result Error A
from_envelope (ok a) = ok a
from_envelope (err e) = err (of_envelope e)
