-- ===== src/Legacy/Wagers.antt =====
-- internal/migration/legacybook/reconcile.go: the loop of `Reconcile` over the wagers.
use go_book.Base.{List, Option, [], if◌then◌else◌, none, some, ℕ, ◌++◌, ◌||◌, ◌∷◌}
use go_book.Base.Int.{leb_ℤ, pos, ℤ}
use go_book.Base.Result.{Result, err, fail_if, ok, ◌>>=◌, ◌>>◌}
use go_book.Base.Text.{Text, is_blank, trim_space}
use go_book.Betting.Parlay.Place.{seen}
use go_book.Events.Envelope.{is_zero}
use go_book.Legacy.Parse.{map_wager_result, parse_american_odds, parse_cents}
use go_book.Legacy.Records.{
  IssueCode, LegacyWager, Report, WagerRecord, add_orphan, add_user_issue, bets_table,
  duplicate_wager_id, index_of, invalid_wager_odds, invalid_wager_record, invalid_wager_result,
  invalid_wager_stake, orphan_wager, read_or, seen_id,
}

module _ (to_lower : Text → Text) where
  unfoldable pub check_wager : LegacyWager → Result IssueCode WagerRecord
  check_wager w = do
    stake ← read_or (parse_cents w.amount) invalid_wager_stake
    fail_if (leb_ℤ stake (pos 0)) invalid_wager_stake
    odds ← read_or (parse_american_odds w.odds) invalid_wager_odds
    result ← read_or (map_wager_result to_lower w.result) invalid_wager_result
    fail_if (leb_ℤ w.id (pos 0) || is_blank w.description || is_zero w.placed_at)
        invalid_wager_record
    ok (record {
      source_id = w.id;
      user_id = w.user_id;
      stake = stake;
      accepted_terms = trim_space w.description;
      accepted_odds = odds;
      placed_at = w.placed_at;
      result = result;
      approved = w.approved;
    })

  unfoldable pub record_wager : LegacyWager → ℕ → Result IssueCode WagerRecord → Report → Report
  record_wager w i (err code) r = add_user_issue code bets_table w.id w.user_id i r
  record_wager w i (ok made) r = record r { wagers = r.wagers ++ made ∷ [] }

  -- A wager of the user at an index, or of no user.
  unfoldable pub add_known_wager : LegacyWager → Option ℕ → Report × List ℤ → Report × List ℤ
  add_known_wager w none (r, seen) = (add_orphan orphan_wager bets_table w.id w.user_id r, seen)
  add_known_wager w (some i) (r, seen) =
      if seen_id w.id seen
      then (add_user_issue duplicate_wager_id bets_table w.id w.user_id i r, seen)
      else (record_wager w i (check_wager w) r, w.id ∷ seen)

  unfoldable pub add_wagers : List LegacyWager → Report × List ℤ → Report × List ℤ
  add_wagers [] s = s
  add_wagers (w ∷ ws) s = add_wagers ws (add_known_wager w (index_of w.user_id s.0.users) s)
