-- ===== src/Legacy/Sound.antt =====
-- What is recorded of the archive is well-formed.
use go_book.Base.{
  All, All-append, Bool-cases, List, Option, Option-cases, [], arith, false, inl, inr, none, refl,
  some, ℕ, ◌^◌, ◌∷◌, ◌≡◌, ◌⊎◌,
}
use go_book.Base.Int.{negsuc, pos, ℤ, ◌<ℤ◌, ◌≤ℤ◌}
use go_book.Base.Result.{Result, err, ok}
use go_book.Base.Text.{Text, codes, text_eq_iff, trim_space}
use go_book.Betting.Parlay.Place.{seen}
use go_book.Competition.Match.{once}
use go_book.Events.Envelope.{is_zero}
use go_book.Legacy.Parse.{
  american_only, map_wager_result, parse_american_odds, parse_cents, parse_int,
}
use go_book.Legacy.Records.{
  IssueCode, LegacyTransaction, LegacyWager, Report, TransactionRecord, WagerRecord, add_user_issue,
  change_at, index_of, net_at, seen_id,
}
use go_book.Legacy.Transactions.{
  add_known, add_transactions, check_amount, check_row, count_amount, credited, record_row,
  transaction_record, type_name,
}
use go_book.Legacy.Wagers.{add_known_wager, add_wagers, check_wager, record_wager}

-- A recorded transaction: positive ID, a time, and an amount of the sign of its type.
pub record IsRecordedRow (t : TransactionRecord) : Type 0 where
  pub positive_id : pos 0 <ℤ t.source_id
  pub timed : is_zero t.occurred_at ≡ false
  pub signed :
      ((t.kind ≡ codes "credit") × (pos 0 <ℤ t.amount))
      ⊎ ((t.kind ≡ codes "debit") × (t.amount <ℤ pos 0))

-- A recorded wager: positive ID and stake, a time, terms, and odds that are American.
pub record IsRecordedWager (w : WagerRecord) : Type 0 where
  pub positive_id : pos 0 <ℤ w.source_id
  pub positive_stake : pos 0 <ℤ w.stake
  pub timed : is_zero w.placed_at ≡ false
  pub american : (w.accepted_odds ≤ℤ negsuc 99) ⊎ (pos 100 ≤ℤ w.accepted_odds)

american_only-american :
    (o : Option ℤ) (z : ℤ) → american_only o ≡ some z → (z ≤ℤ negsuc 99) ⊎ (pos 100 ≤ℤ z)
unfolding american_only
american_only-american none z h = absurd cc
american_only-american (some odds) z h = ground (arith, h)

module _ (to_lower : Text → Text) where
  check_wager-IsRecordedWager :
      (w : LegacyWager) {made : WagerRecord}
      → check_wager to_lower w ≡ ok made
      → IsRecordedWager made
  unfolding check_wager parse_american_odds
  check_wager-IsRecordedWager w h = elim (Option-cases (parse_cents w.amount)) [
    | inl f ↦ ground arith
    | inr (stake, f) ↦ elim (Option-cases (parse_american_odds w.odds)) [
      | inl g ↦ ground arith
      | inr (odds, g) ↦ elim (Option-cases (map_wager_result to_lower w.result)) [
        | inl k ↦ ground arith
        | inr (result, k) ↦ record {
          positive_id = ground arith;
          positive_stake = ground arith;
          timed = ground arith;
          american =
              ground
                (arith, american_only-american (parse_int (2 ^ 31) (trim_space w.odds)) odds g);
        }
      ]
    ]
  ]

  check_amount-signed :
      (t : LegacyTransaction) (net : ℤ) {amount : ℤ}
      → check_amount to_lower t net ≡ ok amount
      → ((type_name to_lower t ≡ codes "credit") × (pos 0 <ℤ amount))
        ⊎ ((type_name to_lower t ≡ codes "debit") × (amount <ℤ pos 0))
  unfolding check_amount
  check_amount-signed t net {amount} h = elim (Option-cases (parse_cents t.amount)) [
    | inl f ↦ ground arith
    | inr (read, f) ↦ ground (
      arith,
      text_eq_iff (type_name to_lower t) (codes "credit"),
      text_eq_iff (type_name to_lower t) (codes "debit"),
    )
  ]

  record_row-rows :
      (t : LegacyTransaction) (i : ℕ) (amount : ℤ) (m : Result IssueCode (Unit {0})) (r : Report)
      → check_row to_lower t ≡ m
      → ((type_name to_lower t ≡ codes "credit") × (pos 0 <ℤ amount))
        ⊎ ((type_name to_lower t ≡ codes "debit") × (amount <ℤ pos 0))
      → All IsRecordedRow r.transactions
      → All IsRecordedRow (record_row to_lower t i amount m r).transactions
  unfolding record_row add_user_issue check_row
  record_row-rows t i amount (err code) r e signed all = all
  record_row-rows t i amount (ok _) r e signed all =
      All-append IsRecordedRow r.transactions (transaction_record to_lower t amount ∷ []) all
        (record { positive_id = ground arith; timed = ground arith; signed = signed }, tt)

  count_amount-rows :
      (t : LegacyTransaction) (i : ℕ) (net : ℤ) (m : Result IssueCode ℤ) (r : Report)
      → check_amount to_lower t net ≡ m
      → All IsRecordedRow r.transactions
      → All IsRecordedRow (count_amount to_lower t i m r).transactions
  unfolding count_amount add_user_issue
  count_amount-rows t i net (err code) r e all = all
  count_amount-rows t i net (ok amount) r e all =
      record_row-rows t i amount (check_row to_lower t)
        (record r { users = change_at i (credited to_lower amount) r.users }) refl
        (check_amount-signed t net e) all

  add_known-rows :
      (t : LegacyTransaction) (o : Option ℕ) (s : Report × List ℤ)
      → All IsRecordedRow s.0.transactions
      → All IsRecordedRow (add_known to_lower t o s).0.transactions
  unfolding add_known add_user_issue
  add_known-rows t none (r, seen) all = all
  add_known-rows t (some i) (r, seen) all = elim (Bool-cases (seen_id t.id seen)) [
    | inl twice ↦ rw twice all
    | inr once ↦ rw once (
        count_amount-rows t i (net_at i r.users) (check_amount to_lower t (net_at i r.users)) r refl
          all)
  ]

  pub add_transactions-rows :
      (ts : List LegacyTransaction) (s : Report × List ℤ)
      → All IsRecordedRow s.0.transactions
      → All IsRecordedRow (add_transactions to_lower ts s).0.transactions
  unfolding add_transactions
  add_transactions-rows [] s all = all
  add_transactions-rows (t ∷ ts) s all =
      add_transactions-rows ts (add_known to_lower t (index_of t.user_id s.0.users) s)
        (add_known-rows t (index_of t.user_id s.0.users) s all)

  record_wager-wagers :
      (w : LegacyWager) (i : ℕ) (m : Result IssueCode WagerRecord) (r : Report)
      → check_wager to_lower w ≡ m
      → All IsRecordedWager r.wagers
      → All IsRecordedWager (record_wager to_lower w i m r).wagers
  unfolding record_wager add_user_issue
  record_wager-wagers w i (err code) r e all = all
  record_wager-wagers w i (ok made) r e all =
      All-append IsRecordedWager r.wagers (made ∷ []) all (check_wager-IsRecordedWager w e, tt)

  add_known_wager-wagers :
      (w : LegacyWager) (o : Option ℕ) (s : Report × List ℤ)
      → All IsRecordedWager s.0.wagers
      → All IsRecordedWager (add_known_wager to_lower w o s).0.wagers
  unfolding add_known_wager add_user_issue
  add_known_wager-wagers w none (r, seen) all = all
  add_known_wager-wagers w (some i) (r, seen) all = elim (Bool-cases (seen_id w.id seen)) [
    | inl twice ↦ rw twice all
    | inr once ↦ rw once (record_wager-wagers w i (check_wager to_lower w) r refl all)
  ]

  pub add_wagers-wagers :
      (ws : List LegacyWager) (s : Report × List ℤ)
      → All IsRecordedWager s.0.wagers
      → All IsRecordedWager (add_wagers to_lower ws s).0.wagers
  unfolding add_wagers
  add_wagers-wagers [] s all = all
  add_wagers-wagers (w ∷ ws) s all =
      add_wagers-wagers ws (add_known_wager to_lower w (index_of w.user_id s.0.users) s)
        (add_known_wager-wagers w (index_of w.user_id s.0.users) s all)
