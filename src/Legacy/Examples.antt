-- ===== src/Legacy/Examples.antt =====
-- An archive of one member with one credit, one unknown row and one wager.
use go_book.Base.{[], none, refl, some, true, ◌∷◌, ◌≡◌}
use go_book.Base.Int.{negsuc, pos, wrap64, ℤ, ◌+ℤ◌, ◌-ℤ◌}
use go_book.Base.Text.{Text, codes, is_blank, is_space, trim_left, trim_space}
use go_book.Legacy.Accounted.{IsComplete, reconciled-IsComplete}
use go_book.Legacy.Parse.{
  all_zeros, american_only, beyond_cents, cents_of_parts, cents_part, digits, digits_from, in_range,
  map_role, map_wager_result, parse_american_odds, parse_cents, parse_int, split_dots, strip_sign,
  whole_cents,
}
use go_book.Legacy.Reconcile.{close_report, close_users, insert_by, reconciled, sort_by}
use go_book.Legacy.Records.{
  LegacyTransaction, LegacyUser, LegacyWager, Report, add_user_issue, change_at, index_of, net_at,
  no_blocking, report_promotable, seen_id,
}
use go_book.Legacy.Transactions.{
  add_known, add_transactions, check_amount, check_row, count_amount, record_row,
}
use go_book.Legacy.Users.{add_user, add_users, user_codes}
use go_book.Legacy.Wagers.{add_known_wager, add_wagers, check_wager, record_wager}

abbrev same_case : Text → Text
same_case s = s

-- A sign before the digits is read twice.
two_signs : parse_cents (codes "-+5") ≡ some (negsuc 499)
unfolding parse_cents cents_of_parts whole_cents parse_int digits digits_from in_range strip_sign
    split_dots all_zeros beyond_cents cents_part trim_space trim_left is_space
two_signs = refl

thirds : parse_cents (codes "12.345") ≡ none
unfolding parse_cents cents_of_parts whole_cents parse_int digits digits_from in_range strip_sign
    split_dots all_zeros beyond_cents cents_part trim_space trim_left is_space
thirds = refl

abbrev ann : LegacyUser
ann = record {
  id = pos 1;
  display_name = codes "Ann";
  email = codes "ann@example.org";
  role = codes "user";
  balance = codes "10.50";
  free_play_balance = codes "0";
}

abbrev credit : ℤ → LegacyTransaction
credit user_id = record {
  id = pos 7;
  user_id = user_id;
  amount = codes "10.50";
  kind = codes "credit";
  description = codes "won";
  occurred_at = 3;
}

abbrev bet : LegacyWager
bet = record {
  id = pos 4;
  user_id = pos 1;
  amount = codes "5";
  description = codes "Ann to win";
  odds = codes "-110";
  placed_at = 2;
  result = codes "win";
  approved = true;
}

abbrev report : Report
report = reconciled same_case (ann ∷ []) (credit (pos 1) ∷ []) (bet ∷ [])

promotable : report_promotable report ≡ true
unfolding reconciled add_users add_user user_codes map_role add_transactions add_known check_amount
    check_row record_row count_amount add_wagers add_known_wager check_wager record_wager
    map_wager_result american_only parse_american_odds close_report close_users sort_by insert_by
    no_blocking seen_id index_of net_at change_at add_user_issue parse_cents cents_of_parts
    whole_cents parse_int digits digits_from in_range strip_sign split_dots all_zeros beyond_cents
    cents_part trim_space trim_left is_space is_blank wrap64 ◌+ℤ◌ ◌-ℤ◌
promotable = refl

reconciled-IsComplete_example : IsComplete same_case (credit (pos 1) ∷ []) (bet ∷ []) report
reconciled-IsComplete_example =
    reconciled-IsComplete same_case (ann ∷ []) (credit (pos 1) ∷ []) (bet ∷ []) promotable
