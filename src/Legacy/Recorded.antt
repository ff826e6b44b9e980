-- ===== src/Legacy/Recorded.antt =====
-- Nothing of the archive is lost: a row is recorded or gives an issue that blocks.
use go_book.Base.{
  Bool-cases, List, Option, [], arith, if◌then◌else◌, inl, inr, length, none, refl, some, ℕ, ◌++◌,
  ◌+◌, ◌∙◌, ◌∷◌, ◌≡◌, ◌≤◌,
}
use go_book.Base.Int.{ℤ}
use go_book.Base.Result.{Result, err, ok}
use go_book.Base.Text.{Text}
use go_book.Betting.Parlay.Place.{seen}
use go_book.Competition.Match.{once}
use go_book.Legacy.Records.{
  Issue, IssueCode, LegacyTransaction, LegacyWager, Report, SourceTable, WagerRecord,
  add_user_issue, bets_table, blocking, change_at, duplicate_transaction_id, duplicate_wager_id,
  index_of, net_at, orphan_transaction, orphan_wager, seen_id, transactions_table,
}
use go_book.Legacy.Transactions.{
  add_known, add_transactions, check_amount, check_row, count_amount, credited, record_row,
}
use go_book.Legacy.Wagers.{add_known_wager, add_wagers, check_wager, record_wager}

-- The issues that block.
unfoldable pub blocked : List Issue → ℕ
blocked [] = 0
blocked (i ∷ is) = (if i.is_blocking then 1 else 0) + blocked is

pub blocked-snoc :
    (is : List Issue) (i : Issue)
    → blocked (is ++ i ∷ []) ≡ blocked is + (if i.is_blocking then 1 else 0)
unfolding blocked
blocked-snoc [] i = omega arith
blocked-snoc (j ∷ js) i = omega (arith, blocked-snoc js i)

length-snoc {ℓ} : {A : Type ℓ} (xs : List A) (x : A) → length (xs ++ x ∷ []) ≡ length xs + 1
length-snoc [] x = omega arith
length-snoc (y ∷ ys) x = omega (arith, length-snoc ys x)

-- A report with one more transaction, or one more issue that blocks.
record HasOneMoreRow (old new : Report) : Type 0 where
  one_more :
      length new.transactions + blocked new.issues
      ≡ length old.transactions + blocked old.issues + 1
  same_wagers : new.wagers ≡ old.wagers
  more_issues : blocked old.issues ≤ blocked new.issues

record HasOneMoreWager (old new : Report) : Type 0 where
  one_more : length new.wagers + blocked new.issues ≡ length old.wagers + blocked old.issues + 1
  same_transactions : new.transactions ≡ old.transactions
  more_issues : blocked old.issues ≤ blocked new.issues

add_user_issue-HasOneMoreRow :
    (code : IssueCode) (table : SourceTable) (source_id user_id : ℤ) (i : ℕ) (r : Report)
    → HasOneMoreRow r (add_user_issue code table source_id user_id i r)
unfolding add_user_issue
add_user_issue-HasOneMoreRow code table source_id user_id i r = record {
  one_more = omega (arith, blocked-snoc r.issues (blocking code table source_id user_id));
  same_wagers = refl;
  more_issues = omega (arith, blocked-snoc r.issues (blocking code table source_id user_id));
}

add_user_issue-HasOneMoreWager :
    (code : IssueCode) (table : SourceTable) (source_id user_id : ℤ) (i : ℕ) (r : Report)
    → HasOneMoreWager r (add_user_issue code table source_id user_id i r)
unfolding add_user_issue
add_user_issue-HasOneMoreWager code table source_id user_id i r = record {
  one_more = omega (arith, blocked-snoc r.issues (blocking code table source_id user_id));
  same_transactions = refl;
  more_issues = omega (arith, blocked-snoc r.issues (blocking code table source_id user_id));
}

module _ (to_lower : Text → Text) where
  record_row-HasOneMoreRow :
      (t : LegacyTransaction) (i : ℕ) (amount : ℤ) (m : Result IssueCode (Unit {0})) (r : Report)
      → HasOneMoreRow r (record_row to_lower t i amount m r)
  unfolding record_row
  record_row-HasOneMoreRow t i amount (err code) r =
      add_user_issue-HasOneMoreRow code transactions_table t.id t.user_id i r
  record_row-HasOneMoreRow t i amount (ok _) r = record {
    one_more = omega (arith, length-snoc r.transactions _);
    same_wagers = refl;
    more_issues = omega arith;
  }

  count_amount-HasOneMoreRow :
      (t : LegacyTransaction) (i : ℕ) (m : Result IssueCode ℤ) (r : Report)
      → HasOneMoreRow r (count_amount to_lower t i m r)
  unfolding count_amount
  count_amount-HasOneMoreRow t i (err code) r =
      add_user_issue-HasOneMoreRow code transactions_table t.id t.user_id i r
  count_amount-HasOneMoreRow t i (ok amount) r =
      let rest =
        record_row-HasOneMoreRow t i amount (check_row to_lower t)
          (record r { users = change_at i (credited to_lower amount) r.users }) in
      record {
        one_more = rest.one_more;
        same_wagers = rest.same_wagers;
        more_issues = rest.more_issues;
      }

  add_known-HasOneMoreRow :
      (t : LegacyTransaction) (o : Option ℕ) (s : Report × List ℤ)
      → HasOneMoreRow s.0 (add_known to_lower t o s).0
  unfolding add_known
  add_known-HasOneMoreRow t none (r, seen) = record {
    one_more = omega (
      arith,
      blocked-snoc r.issues (blocking orphan_transaction transactions_table t.id t.user_id),
    );
    same_wagers = refl;
    more_issues = omega (
      arith,
      blocked-snoc r.issues (blocking orphan_transaction transactions_table t.id t.user_id),
    );
  }
  add_known-HasOneMoreRow t (some i) (r, seen) = elim (Bool-cases (seen_id t.id seen)) [
    | inl twice ↦ rw twice (
        add_user_issue-HasOneMoreRow duplicate_transaction_id transactions_table t.id t.user_id i r)
    | inr once ↦
        rw once (count_amount-HasOneMoreRow t i (check_amount to_lower t (net_at i r.users)) r)
  ]

  pub add_transactions-counts :
      (ts : List LegacyTransaction) (s : Report × List ℤ)
      → let new = (add_transactions to_lower ts s).0 in
        (length new.transactions + blocked new.issues
          ≡ length ts + (length s.0.transactions + blocked s.0.issues))
        × (new.wagers ≡ s.0.wagers)
        × (blocked s.0.issues ≤ blocked new.issues)
  unfolding add_transactions
  add_transactions-counts [] s = (omega arith, refl, omega arith)
  add_transactions-counts (t ∷ ts) s =
      let next = add_known to_lower t (index_of t.user_id s.0.users) s in
      let one = add_known-HasOneMoreRow t (index_of t.user_id s.0.users) s in
      let rest = add_transactions-counts ts next in
      (
        omega (arith, one.one_more, rest.0),
        rest.1 ∙ one.same_wagers,
        omega (arith, one.more_issues, rest.2),
      )

  record_wager-HasOneMoreWager :
      (w : LegacyWager) (i : ℕ) (m : Result IssueCode WagerRecord) (r : Report)
      → HasOneMoreWager r (record_wager to_lower w i m r)
  unfolding record_wager
  record_wager-HasOneMoreWager w i (err code) r =
      add_user_issue-HasOneMoreWager code bets_table w.id w.user_id i r
  record_wager-HasOneMoreWager w i (ok made) r = record {
    one_more = omega (arith, length-snoc r.wagers made);
    same_transactions = refl;
    more_issues = omega arith;
  }

  add_known_wager-HasOneMoreWager :
      (w : LegacyWager) (o : Option ℕ) (s : Report × List ℤ)
      → HasOneMoreWager s.0 (add_known_wager to_lower w o s).0
  unfolding add_known_wager
  add_known_wager-HasOneMoreWager w none (r, seen) = record {
    one_more =
        omega (arith, blocked-snoc r.issues (blocking orphan_wager bets_table w.id w.user_id));
    same_transactions = refl;
    more_issues =
        omega (arith, blocked-snoc r.issues (blocking orphan_wager bets_table w.id w.user_id));
  }
  add_known_wager-HasOneMoreWager w (some i) (r, seen) = elim (Bool-cases (seen_id w.id seen)) [
    | inl twice ↦
        rw twice (add_user_issue-HasOneMoreWager duplicate_wager_id bets_table w.id w.user_id i r)
    | inr once ↦ rw once (record_wager-HasOneMoreWager w i (check_wager to_lower w) r)
  ]

  pub add_wagers-counts :
      (ws : List LegacyWager) (s : Report × List ℤ)
      → let new = (add_wagers to_lower ws s).0 in
        (length new.wagers + blocked new.issues
          ≡ length ws + (length s.0.wagers + blocked s.0.issues))
        × (new.transactions ≡ s.0.transactions)
        × (blocked s.0.issues ≤ blocked new.issues)
  unfolding add_wagers
  add_wagers-counts [] s = (omega arith, refl, omega arith)
  add_wagers-counts (w ∷ ws) s =
      let next = add_known_wager to_lower w (index_of w.user_id s.0.users) s in
      let one = add_known_wager-HasOneMoreWager w (index_of w.user_id s.0.users) s in
      let rest = add_wagers-counts ws next in
      (
        omega (arith, one.one_more, rest.0),
        rest.1 ∙ one.same_transactions,
        omega (arith, one.more_issues, rest.2),
      )
