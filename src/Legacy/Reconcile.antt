-- ===== src/Legacy/Reconcile.antt =====
-- internal/migration/legacybook/reconcile.go: `Reconcile`. `sort.Slice` may order rows of one ID in any
-- way; here they keep the order of the source.
use go_book.Base.{
  Bool, List, Option, [], false, if◌then◌else◌, length, ltb, none, some, ℕ, ◌&&◌, ◌++◌, ◌==◌, ◌||◌,
  ◌∷◌,
}
use go_book.Base.Int.{add64, eqb_ℤ, ltb_ℤ, pos, sub64, ℤ}
use go_book.Base.Result.{Result, err, ok, ◌>>=◌}
use go_book.Base.Text.{Text, codes}
use go_book.Legacy.Records.{
  Issue, LegacyTransaction, LegacyUser, LegacyWager, Report, SourceTable, UserReconciliation,
  bets_table, closing_balance_difference, transactions_table, users_table,
}
use go_book.Legacy.Transactions.{add_transactions}
use go_book.Legacy.Users.{add_users}
use go_book.Legacy.Wagers.{add_wagers}

-- `Source`, after its three loads.
pub record Source : Type 0 where
  pub users : Result Text (List LegacyUser)
  pub transactions : Result Text (List LegacyTransaction)
  pub wagers : Result Text (List LegacyWager)

-- A stable insertion sort by a test of what comes strictly before.
unfoldable pub insert_by {ℓ} : {A : Type ℓ} → (A → A → Bool) → A → List A → List A
insert_by before a [] = a ∷ []
insert_by before a (b ∷ bs) =
    let rest = insert_by before a bs in if before b a then b ∷ rest else a ∷ b ∷ bs

unfoldable pub sort_by {ℓ} : {A : Type ℓ} → (A → A → Bool) → List A → List A
sort_by before [] = []
sort_by before (a ∷ rest) = insert_by before a (sort_by before rest)

-- The names of the tables in their order.
abbrev table_rank : SourceTable → ℕ
table_rank transactions_table = 0
table_rank bets_table = 1
table_rank users_table = 2

abbrev issue_before : Issue → Issue → Bool
issue_before a b =
    ltb_ℤ a.user_id b.user_id
    || (eqb_ℤ a.user_id b.user_id
        && (ltb (table_rank a.source_table) (table_rank b.source_table)
            || (table_rank a.source_table == table_rank b.source_table
                && ltb_ℤ a.source_id b.source_id)))

abbrev pub empty_report : ℕ → ℕ → ℕ → Report
empty_report user_count transaction_count wager_count = record {
  user_count = user_count;
  transaction_count = transaction_count;
  wager_count = wager_count;
  closing_cash_total = pos 0;
  closing_free_play_total = pos 0;
  transaction_net_total = pos 0;
  difference_total = pos 0;
  users = [];
  transactions = [];
  wagers = [];
  issues = [];
}

abbrev difference_of : UserReconciliation → ℤ
difference_of u = sub64 u.closing_cash u.transaction_net

abbrev pub difference_issue : UserReconciliation → Issue
difference_issue u = record {
  is_blocking = false;
  code = closing_balance_difference;
  source_table = users_table;
  source_id = u.user_id;
  user_id = u.user_id;
}

-- The last loop: the totals, and a warning for each difference.
unfoldable pub close_users : List UserReconciliation → Report → Report
close_users [] r = r
close_users (u ∷ us) r = close_users us (record r {
  closing_cash_total = add64 r.closing_cash_total u.closing_cash;
  closing_free_play_total = add64 r.closing_free_play_total u.closing_free_play;
  transaction_net_total = add64 r.transaction_net_total u.transaction_net;
  users = r.users ++ record u { difference = difference_of u } ∷ [];
  issues =
      if eqb_ℤ (difference_of u) (pos 0) then r.issues else r.issues ++ difference_issue u ∷ [];
})

unfoldable pub close_report : Report → Report
close_report r =
    let closed = close_users r.users (record r { users = [] }) in
    record closed {
      difference_total = sub64 closed.closing_cash_total closed.transaction_net_total;
      issues = sort_by issue_before closed.issues;
    }

module _ (to_lower : Text → Text) where
  -- The three loops over what was loaded.
  unfoldable pub reconciled : List LegacyUser → List LegacyTransaction → List LegacyWager → Report
  reconciled users transactions wagers =
      let start = empty_report (length users) (length transactions) (length wagers) in
      let by_user = add_users to_lower (sort_by (λ a b. ltb_ℤ a.id b.id) users) start in
      let by_transaction =
        add_transactions to_lower (sort_by (λ a b. ltb_ℤ a.id b.id) transactions) (by_user, []) in
      let by_wager =
        add_wagers to_lower (sort_by (λ a b. ltb_ℤ a.id b.id) wagers) (by_transaction.0, []) in
      close_report by_wager.0

  -- `Reconcile`; an error is its message.
  reconcile : Option Source → Result Text Report
  reconcile none = err (codes "legacy book source is required")
  reconcile (some source) = do
    users ← source.users
    transactions ← source.transactions
    wagers ← source.wagers
    ok (reconciled users transactions wagers)
