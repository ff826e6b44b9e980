-- ===== src/Betting/Unwind.antt =====
-- internal/betting/voidwager.go and reducewager.go: the book takes one accepted wager back, whole or
-- in part.
use go_book.Base.{[], if◌then◌else◌, ◌++◌, ◌||◌, ◌∷◌}
use go_book.Base.Int.{leb_ℤ, ltb_ℤ, pos, quot, rem, sub64, ℤ}
use go_book.Base.Result.{Result, fail_if, ok, require, ◌>>=◌, ◌>>◌}
use go_book.Base.Text.{Text, codes, decimal, is_blank, is_empty, text_eq, trim_space}
use go_book.Betting.Accept.{posting}
use go_book.Betting.Errors.{
  Error, from_ledger, invalid, invalid_transition, reason_required, unauthorized,
}
use go_book.Betting.Types.{
  EntityId, Wager, is_accepted, valid_id, validate_wager, wager_can_transition, wager_voided,
}
use go_book.Events.Envelope.{Time, is_zero}
use go_book.Ledger.Money.{Money, cad, negate, new_money, validate_currency}
use go_book.Ledger.Odds.{profit}
use go_book.Ledger.Posting.{Transaction, validate_transaction, wager_refund}

pub record VoidWagerAccountRefs : Type 0 where
  pub user_funding : Text
  pub escrow : Text

unfoldable pub validate_void_refs : VoidWagerAccountRefs → Result Error (Unit {0})
validate_void_refs r = do
  fail_if (is_blank r.user_funding || is_blank r.escrow) invalid
  fail_if (text_eq r.user_funding r.escrow) invalid

unfoldable pub void_key : EntityId → Text
void_key wager_id = codes "wager:" ++ (wager_id ++ codes ":void")

abbrev pub void_transaction : Wager → EntityId → Text → VoidWagerAccountRefs → Money → Transaction
void_transaction w actor reason refs negated = record {
  kind = wager_refund;
  currency = w.stake.currency;
  idempotency_key = void_key w.id;
  actor = actor;
  source_type = codes "wager";
  source_id = w.id;
  reason = reason;
  reversal_of = [];
  postings = posting refs.escrow negated ∷ posting refs.user_funding w.stake ∷ [];
}

unfoldable pub void_wager :
    Wager → EntityId → Text → VoidWagerAccountRefs → Time → Result Error (Wager × Transaction)
void_wager w actor reason refs occurred_at = do
  validate_wager w
  require (wager_can_transition w.state wager_voided) invalid_transition
  require (valid_id actor) unauthorized
  fail_if (is_empty (trim_space reason)) reason_required
  validate_void_refs refs
  fail_if (is_zero occurred_at) invalid
  negated ← from_ledger (negate w.stake)
  let txn = void_transaction w actor (trim_space reason) refs negated
  from_ledger (validate_transaction txn)
  ok (record w { state = wager_voided }, txn)

unfoldable pub reduce_key : EntityId → ℤ → Text
reduce_key wager_id new_stake_cents =
    codes "wager:" ++ (wager_id ++ (codes ":reduce:" ++ decimal new_stake_cents))

-- `%02d` of a number below 100.
abbrev two_digits : ℤ → Text
two_digits n = if ltb_ℤ n (pos 10) then b'0' ∷ decimal n else decimal n

-- For an amount that is not negative, which `ReduceWager` has made sure of.
unfoldable pub stake_text : Money → Text
stake_text m =
    (if text_eq m.currency cad then codes "CA$" else m.currency ++ codes " ")
    ++ (decimal (quot m.cents (pos 100)) ++ (codes "." ++ two_digits (rem m.cents (pos 100))))

unfoldable pub reduce_reason : Money → Money → Text → Text
reduce_reason old new reason =
    codes "Stake reduced from "
    ++ (stake_text old ++ (codes " to " ++ (stake_text new ++ (codes " — " ++ reason))))

abbrev pub reduce_transaction :
    Wager → Money → EntityId → Text → VoidWagerAccountRefs → Money → Money → Transaction
reduce_transaction w new_stake actor reason refs refund negated = record {
  kind = wager_refund;
  currency = w.stake.currency;
  idempotency_key = reduce_key w.id new_stake.cents;
  actor = actor;
  source_type = codes "wager";
  source_id = w.id;
  reason = reduce_reason w.stake new_stake reason;
  reversal_of = [];
  postings = posting refs.escrow negated ∷ posting refs.user_funding refund ∷ [];
}

unfoldable pub reduce_wager :
    Wager
    → Money
    → EntityId
    → Text
    → VoidWagerAccountRefs
    → Time
    → Result Error (Wager × Money × Transaction)
reduce_wager w new_stake actor reason refs occurred_at = do
  validate_wager w
  require (is_accepted w.state) invalid_transition
  require (valid_id actor) unauthorized
  fail_if (is_empty (trim_space reason)) reason_required
  validate_void_refs refs
  fail_if (is_zero occurred_at) invalid
  from_ledger (validate_currency new_stake.currency)
  require (text_eq new_stake.currency w.stake.currency) invalid
  fail_if (leb_ℤ new_stake.cents (pos 0)) invalid
  fail_if (leb_ℤ w.stake.cents new_stake.cents) invalid
  refund ← from_ledger (new_money (sub64 w.stake.cents new_stake.cents) w.stake.currency)
  negated ← from_ledger (negate refund)
  won ← from_ledger (profit w.accepted_odds new_stake)
  let txn = reduce_transaction w new_stake actor (trim_space reason) refs refund negated
  from_ledger (validate_transaction txn)
  ok (record w { stake = new_stake; potential_profit = won }, refund, txn)
