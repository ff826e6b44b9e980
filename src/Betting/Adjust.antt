-- ===== src/Betting/Adjust.antt =====
-- internal/betting/adjust.go: money that changed hands outside the app, and its correction.
use go_book.Base.{Bool, List, [], false, true, ◌++◌, ◌||◌, ◌∷◌}
use go_book.Base.Int.{leb_ℤ, pos}
use go_book.Base.Result.{Result, err, fail_if, ok, require, ◌>>=◌, ◌>>◌}
use go_book.Base.Text.{Text, codes, is_blank, is_empty, text_eq, trim_space}
use go_book.Betting.Accept.{posting}
use go_book.Betting.Errors.{Error, from_ledger, invalid, reason_required, unauthorized}
use go_book.Betting.Types.{EntityId, valid_id}
use go_book.Events.Envelope.{Time, is_zero}
use go_book.Ledger.Money.{Money, negate, validate_currency}
use go_book.Ledger.Posting.{
  Posting, Transaction, TransactionType, admin_adjustment, reversal, validate_transaction,
}

pub data AdjustmentDirection : Type 0 where
  payment_received payout_sent : AdjustmentDirection
  other_direction : Text → AdjustmentDirection

unfoldable pub validate_direction : AdjustmentDirection → Result Error (Unit {0})
validate_direction (other_direction _) = err invalid
validate_direction _ = ok tt

pub record AdjustmentAccountRefs : Type 0 where
  pub user_funding : Text
  pub house_clearing : Text

unfoldable pub validate_adjustment_refs : AdjustmentAccountRefs → Result Error (Unit {0})
validate_adjustment_refs r = do
  fail_if (is_blank r.user_funding || is_blank r.house_clearing) invalid
  fail_if (text_eq r.user_funding r.house_clearing) invalid

pub record AdjustmentCommand : Type 0 where
  pub adjustment_id : Text
  pub user_id : EntityId
  pub direction : AdjustmentDirection
  pub amount : Money
  pub reason : Text
  pub actor : EntityId
  pub refs : AdjustmentAccountRefs
  pub occurred_at : Time

abbrev adjustment_source_type : Text
adjustment_source_type = codes "settlement"

unfoldable pub adjustment_key : Text → Text
adjustment_key adjustment_id = codes "settlement:" ++ adjustment_id

unfoldable pub reversal_key : Text → Text
reversal_key adjustment_id = codes "settlement:" ++ (adjustment_id ++ codes ":reversal")

-- A payout debits the member.
abbrev member_amount : AdjustmentDirection → Money → Result Error Money
member_amount payout_sent amount = from_ledger (negate amount)
member_amount _ amount = ok amount

abbrev pub adjustment : AdjustmentCommand → Money → Money → Transaction
adjustment c member house = record {
  kind = admin_adjustment;
  currency = c.amount.currency;
  idempotency_key = adjustment_key c.adjustment_id;
  actor = c.actor;
  source_type = adjustment_source_type;
  source_id = c.adjustment_id;
  reason = trim_space c.reason;
  reversal_of = [];
  postings = posting c.refs.user_funding member ∷ posting c.refs.house_clearing house ∷ [];
}

unfoldable pub record_adjustment : AdjustmentCommand → Result Error Transaction
record_adjustment c = do
  require (valid_id c.adjustment_id) invalid
  require (valid_id c.user_id) invalid
  require (valid_id c.actor) unauthorized
  validate_direction c.direction
  from_ledger (validate_currency c.amount.currency)
  fail_if (leb_ℤ c.amount.cents (pos 0)) invalid
  fail_if (is_empty (trim_space c.reason)) reason_required
  validate_adjustment_refs c.refs
  fail_if (is_zero c.occurred_at) invalid
  member ← member_amount c.direction c.amount
  house ← from_ledger (negate member)
  from_ledger (validate_transaction (adjustment c member house))
  ok (adjustment c member house)

unfoldable pub negate_postings : List Posting → Result Error (List Posting)
negate_postings [] = ok []
negate_postings (p ∷ ps) = do
  negated ← from_ledger (negate p.amount)
  rest ← negate_postings ps
  ok (posting p.account_id negated ∷ rest)

abbrev is_admin_adjustment : TransactionType → Bool
is_admin_adjustment admin_adjustment = true
is_admin_adjustment _ = false

abbrev pub reversing : Transaction → Text → EntityId → Text → List Posting → Transaction
reversing original original_id actor reason postings = record {
  kind = reversal;
  currency = original.currency;
  idempotency_key = reversal_key original.source_id;
  actor = actor;
  source_type = adjustment_source_type;
  source_id = original.source_id;
  reason = reason;
  reversal_of = original_id;
  postings = postings;
}

unfoldable pub reverse_adjustment : Transaction → Text → EntityId → Text → Result Error Transaction
reverse_adjustment original original_id actor reason = do
  require (is_admin_adjustment original.kind) invalid
  require (valid_id original_id) invalid
  require (valid_id actor) unauthorized
  fail_if (is_empty (trim_space reason)) reason_required
  postings ← negate_postings original.postings
  let txn = reversing original original_id actor (trim_space reason) postings
  from_ledger (validate_transaction txn)
  ok txn
