-- ===== src/Legacy/Records.antt =====
-- internal/migration/legacybook/reconcile.go: what `Reconcile` reads and reports. Messages and
-- JSON are left out.
use go_book.Base.{
  Bool, List, Option, [], false, if◌then◌else◌, none, not, some, suc, true, zero, ℕ, ◌&&◌, ◌++◌,
  ◌||◌, ◌∷◌,
}
use go_book.Base.Int.{eqb_ℤ, pos, ℤ}
use go_book.Base.Result.{Result, err, ok}
use go_book.Base.Text.{Text}
use go_book.Events.Envelope.{Time}
use go_book.Legacy.Parse.{TargetRole, WagerResult}

pub record LegacyUser : Type 0 where
  pub id : ℤ
  pub display_name : Text
  pub email : Text
  pub role : Text
  pub balance : Text
  pub free_play_balance : Text

pub record LegacyTransaction : Type 0 where
  pub id : ℤ
  pub user_id : ℤ
  pub amount : Text
  pub kind : Text
  pub description : Text
  pub occurred_at : Time

pub record LegacyWager : Type 0 where
  pub id : ℤ
  pub user_id : ℤ
  pub amount : Text
  pub description : Text
  pub odds : Text
  pub placed_at : Time
  pub result : Text
  pub approved : Bool

pub data IssueCode : Type 0 where
  invalid_user_id missing_display_name unsupported_role invalid_cash_amount : IssueCode
  invalid_free_play_amount duplicate_user_id orphan_transaction duplicate_transaction_id : IssueCode
  invalid_transaction_amount transaction_sign_mismatch transaction_total_overflow : IssueCode
  invalid_transaction_id invalid_transaction_time orphan_wager duplicate_wager_id : IssueCode
  invalid_wager_stake invalid_wager_odds invalid_wager_result invalid_wager_record : IssueCode
  closing_balance_difference : IssueCode

-- The tables `Users`, `Transactions` and `UserBets`
pub data SourceTable : Type 0 where
  users_table transactions_table bets_table : SourceTable

pub record Issue : Type 0 where
  pub is_blocking : Bool
  pub code : IssueCode
  pub source_table : SourceTable
  pub source_id : ℤ
  pub user_id : ℤ

pub record UserReconciliation : Type 0 where
  pub user_id : ℤ
  pub display_name : Text
  pub email : Text
  pub legacy_role : Text
  pub target_role : Option TargetRole
  pub closing_cash : ℤ
  pub closing_free_play : ℤ
  pub transaction_net : ℤ
  pub difference : ℤ
  pub transaction_count : ℕ
  pub promotable : Bool

pub record TransactionRecord : Type 0 where
  pub source_id : ℤ
  pub user_id : ℤ
  pub amount : ℤ
  pub kind : Text
  pub description : Text
  pub occurred_at : Time

pub record WagerRecord : Type 0 where
  pub source_id : ℤ
  pub user_id : ℤ
  pub stake : ℤ
  pub accepted_terms : Text
  pub accepted_odds : ℤ
  pub placed_at : Time
  pub result : WagerResult
  pub approved : Bool

pub record Report : Type 0 where
  pub user_count : ℕ
  pub transaction_count : ℕ
  pub wager_count : ℕ
  pub closing_cash_total : ℤ
  pub closing_free_play_total : ℤ
  pub transaction_net_total : ℤ
  pub difference_total : ℤ
  pub users : List UserReconciliation
  pub transactions : List TransactionRecord
  pub wagers : List WagerRecord
  pub issues : List Issue

abbrev pub blocking : IssueCode → SourceTable → ℤ → ℤ → Issue
blocking code table source_id user_id = record {
  is_blocking = true;
  code = code;
  source_table = table;
  source_id = source_id;
  user_id = user_id;
}

-- `Report.Promotable`
unfoldable pub no_blocking : List Issue → Bool
no_blocking [] = true
no_blocking (i ∷ is) = not i.is_blocking && no_blocking is

abbrev pub report_promotable : Report → Bool
report_promotable r = no_blocking r.issues

unfoldable pub seen_id : ℤ → List ℤ → Bool
seen_id id [] = false
seen_id id (other ∷ others) = eqb_ℤ id other || seen_id id others

-- `byID[id]`: the last user with the ID, as an index.
unfoldable pub index_of : ℤ → List UserReconciliation → Option ℕ
index_of id [] = none
index_of id (u ∷ us) = elim (index_of id us) [
  | some i ↦ some (suc i)
  | none ↦ if eqb_ℤ u.user_id id then some 0 else none
]

-- The net of the transactions of the user at an index.
unfoldable pub net_at : ℕ → List UserReconciliation → ℤ
net_at i [] = pos 0
net_at zero (u ∷ us) = u.transaction_net
net_at (suc i) (u ∷ us) = net_at i us

unfoldable pub change_at :
    ℕ
    → (UserReconciliation → UserReconciliation)
    → List UserReconciliation
    → List UserReconciliation
change_at i change [] = []
change_at zero change (u ∷ us) = change u ∷ us
change_at (suc i) change (u ∷ us) = u ∷ change_at i change us

abbrev barred : UserReconciliation → UserReconciliation
barred u = record u { promotable = false }

-- `addUserIssue` on the user at an index
unfoldable pub add_user_issue : IssueCode → SourceTable → ℤ → ℤ → ℕ → Report → Report
add_user_issue code table source_id user_id i r = record r {
  users = change_at i barred r.users;
  issues = r.issues ++ blocking code table source_id user_id ∷ [];
}

-- An issue of a row whose user is unknown.
abbrev pub add_orphan : IssueCode → SourceTable → ℤ → ℤ → Report → Report
add_orphan code table source_id user_id r = record r {
  issues = r.issues ++ blocking code table source_id user_id ∷ [];
}

-- What was read, or the issue of what could not be.
abbrev pub read_or {ℓ} : {A : Type ℓ} → Option A → IssueCode → Result IssueCode A
read_or none code = err code
read_or (some a) code = ok a
