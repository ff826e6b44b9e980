-- ===== src/Legacy/Transactions.antt =====
-- internal/migration/legacybook/reconcile.go: the loop of `Reconcile` over the transactions. The second
-- state of the loop is the IDs that it has seen.
use go_book.Base.{
  Bool, List, Option, [], if◌then◌else◌, none, not, some, ℕ, ◌&&◌, ◌++◌, ◌+◌, ◌||◌, ◌∷◌,
}
use go_book.Base.Int.{add64, leb_ℤ, ltb_ℤ, max_int64, min_int64, pos, ℤ, ◌-ℤ◌}
use go_book.Base.Result.{Result, err, fail_if, ok, ◌>>=◌, ◌>>◌}
use go_book.Base.Text.{Text, codes, text_eq, trim_space}
use go_book.Betting.Parlay.Place.{seen}
use go_book.Events.Envelope.{is_zero}
use go_book.Legacy.Parse.{parse_cents}
use go_book.Legacy.Records.{
  IssueCode, LegacyTransaction, Report, TransactionRecord, UserReconciliation, add_orphan,
  add_user_issue, change_at, duplicate_transaction_id, index_of, invalid_transaction_amount,
  invalid_transaction_id, invalid_transaction_time, net_at, orphan_transaction, read_or, seen_id,
  transaction_sign_mismatch, transaction_total_overflow, transactions_table,
}

module _ (to_lower : Text → Text) where
  abbrev pub type_name : LegacyTransaction → Text
  type_name t = to_lower (trim_space t.kind)

  abbrev sign_mismatch : Text → ℤ → Bool
  sign_mismatch name amount =
      (text_eq name (codes "credit") && leb_ℤ amount (pos 0))
      || (text_eq name (codes "debit") && leb_ℤ (pos 0) amount)
      || (not (text_eq name (codes "credit")) && not (text_eq name (codes "debit")))

  abbrev exceeds_total : ℤ → ℤ → Bool
  exceeds_total net amount =
      (ltb_ℤ (pos 0) amount && ltb_ℤ (max_int64 -ℤ amount) net)
      || (ltb_ℤ amount (pos 0) && ltb_ℤ net (min_int64 -ℤ amount))

  -- The guards before the amount is counted.
  unfoldable pub check_amount : LegacyTransaction → ℤ → Result IssueCode ℤ
  check_amount t net = do
    amount ← read_or (parse_cents t.amount) invalid_transaction_amount
    fail_if (sign_mismatch (type_name t) amount) transaction_sign_mismatch
    fail_if (exceeds_total net amount) transaction_total_overflow
    ok amount

  -- The guards after it.
  unfoldable pub check_row : LegacyTransaction → Result IssueCode (Unit {0})
  check_row t = do
    fail_if (leb_ℤ t.id (pos 0)) invalid_transaction_id
    fail_if (is_zero t.occurred_at) invalid_transaction_time

  abbrev pub credited : ℤ → UserReconciliation → UserReconciliation
  credited amount u = record u {
    transaction_net = add64 u.transaction_net amount;
    transaction_count = u.transaction_count + 1;
  }

  abbrev pub transaction_record : LegacyTransaction → ℤ → TransactionRecord
  transaction_record t amount = record {
    source_id = t.id;
    user_id = t.user_id;
    amount = amount;
    kind = type_name t;
    description = t.description;
    occurred_at = t.occurred_at;
  }

  unfoldable pub record_row :
      LegacyTransaction → ℕ → ℤ → Result IssueCode (Unit {0}) → Report → Report
  record_row t i amount (err code) r = add_user_issue code transactions_table t.id t.user_id i r
  record_row t i amount (ok _) r = record r {
    transactions = r.transactions ++ transaction_record t amount ∷ [];
  }

  unfoldable pub count_amount : LegacyTransaction → ℕ → Result IssueCode ℤ → Report → Report
  count_amount t i (err code) r = add_user_issue code transactions_table t.id t.user_id i r
  count_amount t i (ok amount) r =
      record_row t i amount (check_row t)
        (record r { users = change_at i (credited amount) r.users })

  -- A transaction of the user at an index, or of no user.
  unfoldable pub add_known : LegacyTransaction → Option ℕ → Report × List ℤ → Report × List ℤ
  add_known t none (r, seen) =
      (add_orphan orphan_transaction transactions_table t.id t.user_id r, seen)
  add_known t (some i) (r, seen) =
      if seen_id t.id seen
      then (add_user_issue duplicate_transaction_id transactions_table t.id t.user_id i r, seen)
      else (count_amount t i (check_amount t (net_at i r.users)) r, t.id ∷ seen)

  unfoldable pub add_transactions : List LegacyTransaction → Report × List ℤ → Report × List ℤ
  add_transactions [] s = s
  add_transactions (t ∷ ts) s = add_transactions ts (add_known t (index_of t.user_id s.0.users) s)
