-- ===== src/Legacy/Users.antt =====
-- internal/migration/legacybook/reconcile.go: the loop of `Reconcile` over the users.
use go_book.Base.{Bool, List, Option, [], false, length, none, not, some, true, ◌++◌, ◌==◌, ◌∷◌}
use go_book.Base.Int.{leb_ℤ, pos, ℤ}
use go_book.Base.Text.{Text, codes, is_blank, trim_space}
use go_book.Legacy.Parse.{map_role, parse_cents}
use go_book.Legacy.Records.{
  Issue, IssueCode, LegacyUser, Report, UserReconciliation, blocking, duplicate_user_id, index_of,
  invalid_cash_amount, invalid_free_play_amount, invalid_user_id, missing_display_name,
  unsupported_role, users_table,
}

-- The code of an issue where a test holds.
abbrev issue_if : Bool → IssueCode → List IssueCode → List IssueCode
issue_if true code codes = code ∷ codes
issue_if false code codes = codes

abbrev is_missing {ℓ} : {A : Type ℓ} → Option A → Bool
is_missing none = true
is_missing (some _) = false

abbrev cents_or_zero : Option ℤ → ℤ
cents_or_zero none = pos 0
cents_or_zero (some cents) = cents

abbrev user_issues_of : ℤ → List IssueCode → List Issue
user_issues_of id [] = []
user_issues_of id (code ∷ codes) = blocking code users_table id id ∷ user_issues_of id codes

module _ (to_lower : Text → Text) where
  abbrev legacy_role : LegacyUser → Text
  legacy_role u = to_lower (trim_space u.role)

  -- The issues of a user, in the order of the guards.
  unfoldable pub user_codes : LegacyUser → List UserReconciliation → List IssueCode
  user_codes u users = issue_if (leb_ℤ u.id (pos 0)) invalid_user_id (
      issue_if (is_blank u.display_name) missing_display_name (
        issue_if (is_missing (map_role to_lower (legacy_role u))) unsupported_role (
          issue_if (is_missing (parse_cents u.balance)) invalid_cash_amount (
            issue_if (is_missing (parse_cents u.free_play_balance)) invalid_free_play_amount
              (issue_if (not (is_missing (index_of u.id users))) duplicate_user_id [])))))

  unfoldable pub add_user : LegacyUser → Report → Report
  add_user u r =
      let found = user_codes u r.users in
      record r {
        users =
            r.users
            ++ record {
              user_id = u.id;
              display_name = trim_space u.display_name;
              email = to_lower (trim_space u.email);
              legacy_role = legacy_role u;
              target_role = map_role to_lower (legacy_role u);
              closing_cash = cents_or_zero (parse_cents u.balance);
              closing_free_play = cents_or_zero (parse_cents u.free_play_balance);
              transaction_net = pos 0;
              difference = pos 0;
              transaction_count = 0;
              promotable = length found == 0;
            }
              ∷ [];
        issues = r.issues ++ user_issues_of u.id found;
      }

  unfoldable pub add_users : List LegacyUser → Report → Report
  add_users [] r = r
  add_users (u ∷ us) r = add_users us (add_user u r)
