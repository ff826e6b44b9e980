-- ===== src/Betting/Accept.antt =====
-- internal/betting/place.go, what becomes of a pending wager: accepted, rejected or cancelled.
use go_book.Base.{[], not, ◌++◌, ◌||◌, ◌∷◌}
use go_book.Base.Int.{pos}
use go_book.Base.Result.{Result, fail_if, ok, require, ◌>>=◌, ◌>>◌}
use go_book.Base.Text.{Text, codes, is_blank, is_empty, text_eq, trim_space}
use go_book.Betting.Errors.{
  Error, from_ledger, invalid, invalid_transition, reason_required, unauthorized,
}
use go_book.Betting.Payloads.{Payload, build_envelope, of_wager_accepted}
use go_book.Betting.Types.{
  EntityId, Wager, valid_id, validate_wager, wager_accepted, wager_can_transition, wager_rejected,
}
use go_book.Events.Envelope.{Envelope, Time, is_zero, wager_accepted_event}
use go_book.Ledger.Balance.{account}
use go_book.Ledger.Money.{Money, negate}
use go_book.Ledger.Posting.{Posting, Transaction, validate_transaction, wager_acceptance}

pub record AcceptanceAccountRefs : Type 0 where
  pub user_funding : Text
  pub escrow : Text

unfoldable pub validate_acceptance_refs : AcceptanceAccountRefs → Result Error (Unit {0})
validate_acceptance_refs r = do
  fail_if (is_blank r.user_funding || is_blank r.escrow) invalid
  fail_if (text_eq r.user_funding r.escrow) invalid

pub record AcceptWagerResult : Type 0 where
  pub wager : Wager
  pub transaction : Transaction
  pub event : Envelope Payload

abbrev pub posting : Text → Money → Posting
posting account amount = record { account_id = account; amount = amount }

abbrev pub acceptance : Wager → EntityId → AcceptanceAccountRefs → Money → Transaction
acceptance w actor refs negated = record {
  kind = wager_acceptance;
  currency = w.stake.currency;
  idempotency_key = codes "wager:" ++ (w.id ++ codes ":acceptance");
  actor = actor;
  source_type = codes "wager";
  source_id = w.id;
  reason = [];
  reversal_of = [];
  postings = posting refs.user_funding negated ∷ posting refs.escrow w.stake ∷ [];
}

abbrev pub accepted_payload : Wager → Payload
accepted_payload w = of_wager_accepted (record {
  wager_id = w.id;
  user_id = w.user_id;
  market_id = w.market_id;
  selection_id = w.selection_id;
  stake_cents = w.stake.cents;
  currency = w.stake.currency;
  accepted_american_odds = w.accepted_odds;
  potential_profit_cents = w.potential_profit.cents;
})

unfoldable pub accept_wager :
    Wager → EntityId → Time → AcceptanceAccountRefs → EntityId → Result Error AcceptWagerResult
accept_wager w actor occurred_at refs event_id = do
  validate_wager w
  require (wager_can_transition w.state wager_accepted) invalid_transition
  require (valid_id actor) unauthorized
  validate_acceptance_refs refs
  fail_if (is_zero occurred_at) invalid
  require (valid_id event_id) invalid
  negated ← from_ledger (negate w.stake)
  let txn = acceptance w actor refs negated
  from_ledger (validate_transaction txn)
  envelope ←
      build_envelope event_id w.id (codes "wager") (pos 1) wager_accepted_event occurred_at
        (accepted_payload w)
  ok (record { wager = record w { state = wager_accepted }; transaction = txn; event = envelope })

unfoldable pub reject_wager : Wager → EntityId → Text → Result Error Wager
reject_wager w actor reason = do
  validate_wager w
  require (wager_can_transition w.state wager_rejected) invalid_transition
  require (valid_id actor) unauthorized
  fail_if (is_empty (trim_space reason)) reason_required
  ok (record w { state = wager_rejected })

unfoldable pub cancel_wager : Wager → EntityId → Result Error Wager
cancel_wager w actor = do
  validate_wager w
  fail_if (not (valid_id actor) || not (text_eq actor w.user_id)) unauthorized
  require (wager_can_transition w.state wager_rejected) invalid_transition
  ok (record w { state = wager_rejected })
