-- ===== src/Ledger/Posting.antt =====
-- internal/ledger/posting.go. The map of accounts seen so far is a list.
use go_book.Base.{Bool, List, [], false, length, ltb, not, true, ℕ, ◌&&◌, ◌||◌, ◌∷◌}
use go_book.Base.Int.{add64, eqb_ℤ, pos, ℤ}
use go_book.Base.Result.{Result, err, fail_if, ok, ◌>>=◌, ◌>>◌}
use go_book.Base.Text.{Text, is_blank, is_empty, text_eq, trim_space}
use go_book.Ledger.Money.{
  Currency, LedgerError, Money, amount_overflow, invalid_transaction, overflows,
  unbalanced_postings, validate_currency,
}

-- `other_type` is any other string.
pub data TransactionType : Type 0 where
  wager_acceptance wager_win wager_loss wager_refund : TransactionType
  admin_adjustment migration_adjustment reversal : TransactionType
  other_type : Text → TransactionType

-- `TransactionType.Validate`
unfoldable pub validate_type : TransactionType → Result LedgerError (Unit {0})
validate_type (other_type _) = err invalid_transaction
validate_type _ = ok tt

pub record Posting : Type 0 where
  pub account_id : Text
  pub amount : Money

pub record Transaction : Type 0 where
  pub kind : TransactionType
  pub currency : Currency
  pub idempotency_key : Text
  pub actor : Text
  pub source_type : Text
  pub source_id : Text
  pub reason : Text
  pub reversal_of : Text
  pub postings : List Posting

expected_posting_count : Transaction → ℕ
expected_posting_count t = length t.postings

unfoldable pub contains : List Text → Text → Bool
contains [] a = false
contains (x ∷ xs) a = text_eq x a || contains xs a

-- A failed `Validate` of an amount is reported as an invalid transaction.
abbrev as_invalid : Result LedgerError (Unit {0}) → Result LedgerError (Unit {0})
as_invalid (ok _) = ok tt
as_invalid (err _) = err invalid_transaction

-- One round of the loop: the accounts seen, and the sum, after this posting.
unfoldable pub check_posting :
    Currency → List Text → ℤ → Posting → Result LedgerError (List Text × ℤ)
check_posting currency seen sum p = do
  let account = trim_space p.account_id
  fail_if (is_empty account) invalid_transaction
  fail_if (contains seen account) invalid_transaction
  as_invalid (validate_currency p.amount.currency)
  fail_if (not (text_eq p.amount.currency currency)) invalid_transaction
  fail_if (eqb_ℤ p.amount.cents (pos 0)) invalid_transaction
  fail_if (overflows sum p.amount.cents) amount_overflow
  ok (account ∷ seen, add64 sum p.amount.cents)

unfoldable pub check_postings :
    Currency → List Text → ℤ → List Posting → Result LedgerError (Unit {0})
check_postings currency seen sum [] = fail_if (not (eqb_ℤ sum (pos 0))) unbalanced_postings
check_postings currency seen sum (p ∷ ps) = do
  next ← check_posting currency seen sum p
  check_postings currency next.0 next.1 ps

unfoldable pub validate_postings : Currency → List Posting → Result LedgerError (Unit {0})
validate_postings currency postings = do
  validate_currency currency
  fail_if (ltb (length postings) 2) unbalanced_postings
  check_postings currency [] (pos 0) postings

abbrev pub is_reversal : TransactionType → Bool
is_reversal reversal = true
is_reversal _ = false

abbrev pub needs_reason : TransactionType → Bool
needs_reason admin_adjustment = true
needs_reason migration_adjustment = true
needs_reason reversal = true
needs_reason _ = false

-- `Transaction.Validate`
unfoldable pub validate_transaction : Transaction → Result LedgerError (Unit {0})
validate_transaction t = do
  validate_type t.kind
  as_invalid (validate_currency t.currency)
  fail_if
      (is_blank t.idempotency_key
        || is_blank t.actor
        || is_blank t.source_type
        || is_blank t.source_id)
      invalid_transaction
  fail_if (is_reversal t.kind && is_blank t.reversal_of) invalid_transaction
  fail_if (needs_reason t.kind && is_blank t.reason) invalid_transaction
  validate_postings t.currency t.postings
