-- ===== src/Betting/Examples/Markets.antt =====
-- Grading and voiding a market, at concrete wagers.
use go_book.Base.{List, [], false, refl, true, ◌∷◌, ◌≡◌}
use go_book.Base.Int.{pos, quot, rem, wrap64, ◌*ℤ◌, ◌+ℤ◌, ◌-ℤ◌}
use go_book.Base.Result.{ok}
use go_book.Base.Text.{
  Text, byte_length, codes, decimal, decimal_from, is_blank, is_space, trim_left, trim_space,
}
use go_book.Betting.Examples.{accounts, admin, event_uuid, market_uuid, taken, wager_uuid}
use go_book.Betting.Market.{
  SettleMarketCommand, SettleMarketResult, all_of_market, check_outcome, check_settlement,
  count_wins, dead_heat_divisor_of, settle_each, settle_market, settle_one, validate_outcome,
}
use go_book.Betting.Partition.{insert_by_id, partition_wagers, sort_by_id, split_accepted_wagers}
use go_book.Betting.Payloads.{build_envelope}
use go_book.Betting.Regrading.{IsMarketSettled, settle_market-IsMarketSettled, settle_market_twice}
use go_book.Betting.Settle.{
  dead_heat_split, outcome_of, settle_wager, settlement_key, validate_settlement_refs, win_outcome,
  won_on,
}
use go_book.Betting.Types.{
  Market, Selection, Wager, market_closed, market_match, market_settled, result_loss, result_win,
  validate_market, validate_market_state, validate_market_type, validate_result,
  wager_can_transition, wager_rejected,
}
use go_book.Betting.Void.{VoidMarketCommand, check_void, void_each, void_market}
use go_book.Betting.Voiding.{IsMarketVoided, void_market-IsMarketVoided}
use go_book.Events.Envelope.{
  all_hex, matches_event_type, remove_dashes, type_rest, valid_uuid, validate_envelope,
  version_suffix,
}
use go_book.Ledger.Money.{add, all_upper, cad, negate, overflows, parse_currency, validate_currency}
use go_book.Ledger.Odds.{profit, rounded, validate_odds}
use go_book.Ledger.Posting.{
  check_posting, check_postings, contains, validate_postings, validate_transaction, validate_type,
}

abbrev match_market : Market
match_market = record {
  id = market_uuid;
  kind = market_match;
  match_id = codes "match";
  title = codes "Who wins?";
  state = market_closed;
  currency = cad;
  opens_at = 1;
  closes_at = 9;
}

abbrev side : Text → Selection
side id = record {
  id = id;
  market_id = market_uuid;
  key = id;
  display_terms = id;
  offered_odds = pos 150;
  semantic_result_key = id;
  active = true;
}

-- One wager is accepted, another was rejected.
abbrev rejected : Wager
rejected = record taken { id = codes "w0"; state = wager_rejected }

abbrev grade : SettleMarketCommand
grade = record {
  market = match_market;
  selections = side (codes "blue") ∷ side (codes "red") ∷ [];
  outcome = (codes "blue", result_win) ∷ (codes "red", result_loss) ∷ [];
  wagers = taken ∷ rejected ∷ [];
  refs = (wager_uuid, accounts) ∷ [];
  wager_settlement_ids = (wager_uuid, codes "s1") ∷ [];
  wager_event_ids = (wager_uuid, event_uuid) ∷ [];
  settlement_id = codes "settlement";
  version = pos 1;
  actor = admin;
  occurred_at = 10;
  market_event_id = event_uuid;
  regrade = false;
  dead_heat = false;
  dead_heat_divisor = pos 0;
}

graded : (r : SettleMarketResult) × (settle_market grade ≡ ok r)
unfolding settle_market check_settlement validate_market is_blank validate_market_type byte_length
    validate_market_state validate_currency all_of_market validate_outcome validate_result
    dead_heat_divisor_of split_accepted_wagers settle_each settle_one settle_wager
    validate_settlement_refs wager_can_transition quot rem wrap64 ◌*ℤ◌ ◌+ℤ◌ ◌-ℤ◌ decimal
    decimal_from is_space trim_left trim_space check_outcome count_wins insert_by_id
    partition_wagers sort_by_id build_envelope dead_heat_split outcome_of settlement_key win_outcome
    won_on all_hex matches_event_type remove_dashes type_rest valid_uuid validate_envelope
    version_suffix add all_upper negate overflows parse_currency profit rounded validate_odds
    check_posting check_postings contains validate_postings validate_transaction validate_type
graded = (_, refl)

settle_market-IsMarketSettled_example : IsMarketSettled grade graded.0
settle_market-IsMarketSettled_example = settle_market-IsMarketSettled grade graded.1

-- A second grade, with the outcomes swapped.
abbrev regrade : List Wager → SettleMarketCommand
regrade wagers = record grade {
  market = record match_market { state = market_settled };
  outcome = (codes "blue", result_loss) ∷ (codes "red", result_win) ∷ [];
  wagers = wagers;
  version = pos 2;
  regrade = true;
}

regraded : (q : SettleMarketResult) × (settle_market (regrade graded.0.wagers) ≡ ok q)
unfolding graded settle_market check_settlement validate_market is_blank validate_market_type
    byte_length validate_market_state validate_currency all_of_market validate_outcome
    validate_result dead_heat_divisor_of split_accepted_wagers settle_each settle_one settle_wager
    validate_settlement_refs wager_can_transition quot rem wrap64 ◌*ℤ◌ ◌+ℤ◌ ◌-ℤ◌ decimal
    decimal_from is_space trim_left trim_space check_outcome count_wins insert_by_id
    partition_wagers sort_by_id build_envelope dead_heat_split outcome_of settlement_key win_outcome
    won_on all_hex matches_event_type remove_dashes type_rest valid_uuid validate_envelope
    version_suffix add all_upper negate overflows parse_currency profit rounded validate_odds
    check_posting check_postings contains validate_postings validate_transaction validate_type
regraded = (_, refl)

settle_market_twice_example :
    (regraded.0.settlements ≡ [])
    × (regraded.0.wager_events ≡ [])
    × (regraded.0.wagers ≡ graded.0.wagers)
settle_market_twice_example =
    settle_market_twice grade (regrade graded.0.wagers) graded.1 refl regraded.1

abbrev rained_off : VoidMarketCommand
rained_off = record {
  market = match_market;
  wagers = taken ∷ rejected ∷ [];
  refs = (wager_uuid, accounts) ∷ [];
  wager_settlement_ids = (wager_uuid, codes "s1") ∷ [];
  wager_event_ids = (wager_uuid, event_uuid) ∷ [];
  settlement_id = codes "settlement";
  version = pos 1;
  actor = admin;
  reason = codes "rain";
  occurred_at = 10;
  market_event_id = event_uuid;
}

refunded : (r : SettleMarketResult) × (void_market rained_off ≡ ok r)
unfolding void_market check_void void_each validate_market is_blank validate_market_type byte_length
    validate_market_state validate_currency all_of_market validate_outcome validate_result
    dead_heat_divisor_of split_accepted_wagers settle_each settle_one settle_wager
    validate_settlement_refs wager_can_transition quot rem wrap64 ◌*ℤ◌ ◌+ℤ◌ ◌-ℤ◌ decimal
    decimal_from is_space trim_left trim_space check_outcome count_wins insert_by_id
    partition_wagers sort_by_id build_envelope dead_heat_split outcome_of settlement_key win_outcome
    won_on all_hex matches_event_type remove_dashes type_rest valid_uuid validate_envelope
    version_suffix add all_upper negate overflows parse_currency profit rounded validate_odds
    check_posting check_postings contains validate_postings validate_transaction validate_type
refunded = (_, refl)

void_market-IsMarketVoided_example : IsMarketVoided rained_off refunded.0
void_market-IsMarketVoided_example = void_market-IsMarketVoided rained_off refunded.1
