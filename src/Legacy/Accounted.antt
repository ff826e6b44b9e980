-- ===== src/Legacy/Accounted.antt =====
-- What a report of the reconciliation accounts for.
use go_book.Base.{
  All, List, [], ap, arith, inl, inr, length, refl, sym, true, ℕ, ◌++◌, ◌+◌, ◌∙◌, ◌∷◌, ◌≡◌, ◌≤◌,
}
use go_book.Base.Int.{ltb_ℤ}
use go_book.Base.Text.{Text}
use go_book.Betting.Market.{start}
use go_book.Legacy.Closed.{blocked-none, close_report-keeps, length-sort_by, lengths}
use go_book.Legacy.Matched.{
  AllOf, HasRecords, IsRecordOf, IsRecordOfWager, add_transactions-HasRows, add_wagers-HasWagers,
  sort_by-perm,
}
use go_book.Legacy.Reconcile.{empty_report, reconciled, sort_by}
use go_book.Legacy.Recorded.{add_transactions-counts, add_wagers-counts, blocked}
use go_book.Legacy.Records.{LegacyTransaction, LegacyUser, LegacyWager, Report, report_promotable}
use go_book.Legacy.Sound.{IsRecordedRow, IsRecordedWager, add_transactions-rows, add_wagers-wagers}
use go_book.Legacy.Transactions.{add_transactions}
use go_book.Legacy.Users.{add_user, add_users}
use go_book.Legacy.Wagers.{add_wagers}
use mathlib.Core.Path.{subst}
use mathlib.Core.List.{Perm}

-- A report that has each row of the archive, in good form.
pub record IsComplete (to_lower : Text → Text) (transactions : List LegacyTransaction)
    (wagers : List LegacyWager) (r : Report) : Type 0 where
  pub rows : List LegacyTransaction
  pub same_rows : Perm rows transactions
  pub each_transaction : AllOf (IsRecordOf to_lower) rows r.transactions
  pub bets : List LegacyWager
  pub same_bets : Perm bets wagers
  pub each_wager : AllOf (IsRecordOfWager to_lower) bets r.wagers
  pub good_transactions : All IsRecordedRow r.transactions
  pub good_wagers : All IsRecordedWager r.wagers

module _ (to_lower : Text → Text) where
  add_users-keeps :
      (us : List LegacyUser) (r : Report)
      → let new = add_users to_lower us r in
        (new.transactions ≡ r.transactions) × (new.wagers ≡ r.wagers)
  unfolding add_users add_user
  add_users-keeps [] r = (refl, refl)
  add_users-keeps (u ∷ us) r = add_users-keeps us (add_user to_lower u r)

  -- The numbers of the stages: the users, the transactions, the wagers, the closing.
  accounted :
      {t w r0 s0 b0 r1 s1 b1 r2 s2 b2 : ℕ}
      → (r0 ≡ 0) × (s0 ≡ 0)
      → (r1 + b1 ≡ t + (r0 + b0)) × (s1 ≡ s0) × (b0 ≤ b1)
      → (s2 + b2 ≡ w + (s1 + b1)) × (r2 ≡ r1) × (b1 ≤ b2)
      → (t + w ≤ r2 + s2 + b2) × (b2 ≡ 0 → (r2 ≡ t) × (s2 ≡ w))
  accounted start rows wagers = (
    omega (arith, start.0, start.1, rows.0, rows.1, rows.2, wagers.0, wagers.1, wagers.2),
    λ none_left. (
      omega (
        arith, start.0, start.1, rows.0, rows.1, rows.2, wagers.0, wagers.1, wagers.2, none_left,
      ),
      omega (
        arith, start.0, start.1, rows.0, rows.1, rows.2, wagers.0, wagers.1, wagers.2, none_left,
      ),
    ),
  )

  reconciled_counts :
      (users : List LegacyUser) (transactions : List LegacyTransaction) (wagers : List LegacyWager)
      → let r = reconciled to_lower users transactions wagers in
        (length transactions + length wagers
          ≤ length r.transactions + length r.wagers + blocked r.issues)
        × (report_promotable r ≡ true
            → (length r.transactions ≡ length transactions) × (length r.wagers ≡ length wagers))
  unfolding reconciled
  reconciled_counts users transactions wagers =
      let start = empty_report (length users) (length transactions) (length wagers) in
      let in_order = sort_by (λ (a b : LegacyUser). ltb_ℤ a.id b.id) users in
      let ts = sort_by (λ (a b : LegacyTransaction). ltb_ℤ a.id b.id) transactions in
      let ws = sort_by (λ (a b : LegacyWager). ltb_ℤ a.id b.id) wagers in
      let by_user = add_users to_lower in_order start in
      let by_transaction = add_transactions to_lower ts (by_user, []) in
      let by_wager = add_wagers to_lower ws (by_transaction.0, []) in
      let none_yet = add_users-keeps in_order start in
      let t = add_transactions-counts to_lower ts (by_user, []) in
      let w = add_wagers-counts to_lower ws (by_transaction.0, []) in
      let closed = close_report-keeps by_wager.0 in
      let (same_rows, same_wagers) = lengths by_wager.0 in
      let (enough, all) =
        accounted (ap length none_yet.0, ap length none_yet.1) (t.0, ap length t.1, t.2)
          (w.0, ap length w.1, w.2) in
      let many_rows = length-sort_by (λ (a b : LegacyTransaction). ltb_ℤ a.id b.id) transactions in
      let many_wagers = length-sort_by (λ (a b : LegacyWager). ltb_ℤ a.id b.id) wagers in
      (
        omega (arith, many_rows, many_wagers, closed.0, same_rows, same_wagers, enough),
        λ h.
            let rest = all (sym closed.0 ∙ blocked-none _ h) in
            (same_rows ∙ rest.0 ∙ many_rows, same_wagers ∙ rest.1 ∙ many_wagers),
      )

  -- No row is lost without a trace: the records and the issues that block are no fewer than the
  -- transactions and wagers of the archive.
  reconciled-IsTraced :
      (users : List LegacyUser) (transactions : List LegacyTransaction) (wagers : List LegacyWager)
      → let r = reconciled to_lower users transactions wagers in
        length transactions + length wagers
        ≤ length r.transactions + length r.wagers + blocked r.issues
  reconciled-IsTraced users transactions wagers = (reconciled_counts users transactions wagers).0

  -- The rows that are recorded, whatever the archive holds.
  reconciled_sound :
      (users : List LegacyUser) (transactions : List LegacyTransaction) (wagers : List LegacyWager)
      → let r = reconciled to_lower users transactions wagers in
        All IsRecordedRow r.transactions × All IsRecordedWager r.wagers
  unfolding reconciled
  reconciled_sound users transactions wagers =
      let start = empty_report (length users) (length transactions) (length wagers) in
      let in_order = sort_by (λ (a b : LegacyUser). ltb_ℤ a.id b.id) users in
      let ts = sort_by (λ (a b : LegacyTransaction). ltb_ℤ a.id b.id) transactions in
      let ws = sort_by (λ (a b : LegacyWager). ltb_ℤ a.id b.id) wagers in
      let by_user = add_users to_lower in_order start in
      let by_transaction = add_transactions to_lower ts (by_user, []) in
      let by_wager = add_wagers to_lower ws (by_transaction.0, []) in
      let none_yet = add_users-keeps in_order start in
      let t = add_transactions-counts to_lower ts (by_user, []) in
      let w = add_wagers-counts to_lower ws (by_transaction.0, []) in
      let closed = close_report-keeps by_wager.0 in
      let rows =
        add_transactions-rows to_lower ts (by_user, [])
          (subst (All IsRecordedRow) (sym none_yet.0) tt) in
      let bets =
        add_wagers-wagers to_lower ws (by_transaction.0, [])
          (subst (All IsRecordedWager) (sym (t.1 ∙ none_yet.1)) tt) in
      (
        subst (All IsRecordedRow) (sym (closed.1 ∙ w.1)) rows,
        subst (All IsRecordedWager) (sym closed.2) bets,
      )

  -- Where no issue blocks at the end, each row of the archive has its record.
  all_recorded :
      {A B : Type 0} (rule : A → B → Type 0) (rows : List A) (old new : ℕ) (had has_now : List B)
      → had ≡ []
      → new ≡ 0
      → HasRecords old new had has_now rule rows
      → AllOf rule rows has_now
  all_recorded rule rows old new had has_now none_yet none_left (inl more) =
      absurd (omega (arith, more, none_left))
  all_recorded rule rows old new had has_now none_yet none_left (inr (more, e, all)) =
      subst (AllOf rule rows) (sym (e ∙ ap (λ (bs : List _). bs ++ more) none_yet)) all

  reconciled_matched :
      (users : List LegacyUser) (transactions : List LegacyTransaction) (wagers : List LegacyWager)
      → let r = reconciled to_lower users transactions wagers in
        report_promotable r ≡ true
        → AllOf
            (IsRecordOf to_lower)
            (sort_by (λ (a b : LegacyTransaction). ltb_ℤ a.id b.id) transactions)
            r.transactions
          × AllOf
              (IsRecordOfWager to_lower)
              (sort_by (λ (a b : LegacyWager). ltb_ℤ a.id b.id) wagers)
              r.wagers
  unfolding reconciled
  reconciled_matched users transactions wagers h =
      let start = empty_report (length users) (length transactions) (length wagers) in
      let in_order = sort_by (λ (a b : LegacyUser). ltb_ℤ a.id b.id) users in
      let ts = sort_by (λ (a b : LegacyTransaction). ltb_ℤ a.id b.id) transactions in
      let ws = sort_by (λ (a b : LegacyWager). ltb_ℤ a.id b.id) wagers in
      let by_user = add_users to_lower in_order start in
      let by_transaction = add_transactions to_lower ts (by_user, []) in
      let by_wager = add_wagers to_lower ws (by_transaction.0, []) in
      let none_yet = add_users-keeps in_order start in
      let t = add_transactions-counts to_lower ts (by_user, []) in
      let w = add_wagers-counts to_lower ws (by_transaction.0, []) in
      let closed = close_report-keeps by_wager.0 in
      let none_left = sym closed.0 ∙ blocked-none _ h in
      let none_before : blocked by_transaction.0.issues ≡ 0 = omega (arith, w.2, none_left) in
      let rows =
        all_recorded (IsRecordOf to_lower) ts _ _ _ _ none_yet.0 none_before
          (add_transactions-HasRows to_lower ts (by_user, [])) in
      let bets =
        all_recorded (IsRecordOfWager to_lower) ws _ _ _ _ (t.1 ∙ none_yet.1) none_left
          (add_wagers-HasWagers to_lower ws (by_transaction.0, [])) in
      (
        subst (AllOf (IsRecordOf to_lower) ts) (sym (closed.1 ∙ w.1)) rows,
        subst (AllOf (IsRecordOfWager to_lower) ws) (sym closed.2) bets,
      )

  -- A reconciliation of the archive that comes out without an issue that blocks has recorded each
  -- transaction and each wager: the records are, one for one, those of the rows of the archive in some
  -- order, with the ID, the user, the time and the texts of the row and the amounts, odds and results that
  -- are read from it; and they are in good form, a transaction with a positive ID, a time and an amount of
  -- the sign of its type, a wager with a positive ID and stake, a time and American odds.
  pub reconciled-IsComplete :
      (users : List LegacyUser) (transactions : List LegacyTransaction) (wagers : List LegacyWager)
      → report_promotable (reconciled to_lower users transactions wagers) ≡ true
      → IsComplete to_lower transactions wagers (reconciled to_lower users transactions wagers)
  reconciled-IsComplete users transactions wagers h =
      let matched = reconciled_matched users transactions wagers h in
      let good = reconciled_sound users transactions wagers in
      record {
        rows = sort_by (λ (a b : LegacyTransaction). ltb_ℤ a.id b.id) transactions;
        same_rows = sort_by-perm _ transactions;
        each_transaction = matched.0;
        bets = sort_by (λ (a b : LegacyWager). ltb_ℤ a.id b.id) wagers;
        same_bets = sort_by-perm _ wagers;
        each_wager = matched.1;
        good_transactions = good.0;
        good_wagers = good.1;
      }
