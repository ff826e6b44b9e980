-- ===== src/Betting/Examples/Placing.antt =====
-- Placing, reducing, voiding and adjusting, at concrete amounts.
use go_book.Base.{[], arith, refl, true, ◌↔◌, ◌≡◌}
use go_book.Base.Int.{pos, quot, rem, wrap64, ◌*ℤ◌, ◌+ℤ◌, ◌-ℤ◌, ◌<ℤ◌, ◌≤ℤ◌}
use go_book.Base.Result.{ok}
use go_book.Base.Text.{byte_length, codes, decimal, is_blank, is_space, trim_space}
use go_book.Betting.Accepted.{opposite}
use go_book.Betting.Adjust.{
  AdjustmentCommand, adjustment, adjustment_key, negate_postings, payout_sent, record_adjustment,
  reversal_key, reverse_adjustment, reversing, validate_adjustment_refs, validate_direction,
}
use go_book.Betting.Examples.{
  accounts, admin, market_uuid, member, taken, taken-IsTyped, ten, wager_uuid, waiting,
}
use go_book.Betting.Life.{to_void}
use go_book.Betting.Place.{
  PlaceWagerCommand, check_open, check_placement, is_restricted, place_wager,
}
use go_book.Betting.Placed.{IsPlaced, place_wager_caps, place_wager_iff}
use go_book.Betting.Reversed.{IsReversed, reverse_adjustment-IsReversed}
use go_book.Betting.Reversible.{reverse_adjustment_total, reversed_postings}
use go_book.Betting.Types.{
  Market, Selection, Wager, funding_user_cash, market_match, market_open, matches_key,
  validate_funding, validate_market, validate_market_state, validate_market_type,
  validate_selection, validate_wager, validate_wager_state, wager_can_transition, wager_voided,
}
use go_book.Betting.Unwind.{
  VoidWagerAccountRefs, reduce_key, reduce_reason, reduce_transaction, reduce_wager, stake_text,
  validate_void_refs, void_key, void_transaction, void_wager,
}
use go_book.Betting.Unwound.{IsReduced, reduce_wager-IsReduced}
use go_book.Ledger.Money.{Money, cad, negate, new_money, overflows, validate_currency}
use go_book.Ledger.Odds.{profit, rounded, validate_odds}
use go_book.Ledger.Posting.{
  Transaction, check_posting, check_postings, contains, validate_postings, validate_transaction,
  validate_type,
}

-- Ten dollars turn into four.
abbrev four : Money
four = record { cents = pos 400; currency = cad }

abbrev void_accounts : VoidWagerAccountRefs
void_accounts = to_void accounts

abbrev six : Money
six = record { cents = pos 600; currency = cad }

abbrev smaller : Wager
smaller = record taken { stake = four; potential_profit = six }

reduced :
    reduce_wager taken four admin (codes "too much") void_accounts 8
    ≡ ok (
      smaller,
      six,
      reduce_transaction taken four admin (codes "too much") void_accounts six (opposite six),
    )
unfolding reduce_wager validate_wager is_blank trim_space is_space validate_funding
    validate_currency validate_odds validate_wager_state byte_length validate_void_refs profit
    rounded quot rem new_money negate overflows wrap64 validate_transaction validate_type
    validate_postings check_postings check_posting contains reduce_key reduce_reason stake_text
    decimal ◌*ℤ◌ ◌+ℤ◌ ◌-ℤ◌
reduced = refl

reduce_wager-IsReduced_example :
    IsReduced taken four void_accounts smaller six
      (reduce_transaction taken four admin (codes "too much") void_accounts six (opposite six))
reduce_wager-IsReduced_example =
    reduce_wager-IsReduced taken four admin (codes "too much") void_accounts 8 taken-IsTyped reduced

voided :
    void_wager taken admin (codes "rained off") void_accounts 8
    ≡ ok (
      record taken { state = wager_voided },
      void_transaction taken admin (codes "rained off") void_accounts (opposite ten),
    )
unfolding void_wager validate_wager is_blank trim_space is_space validate_funding validate_currency
    validate_odds validate_wager_state byte_length validate_void_refs wager_can_transition negate
    overflows wrap64 validate_transaction validate_type validate_postings check_postings
    check_posting contains void_key ◌+ℤ◌ ◌-ℤ◌
voided = refl

abbrev match_market : Market
match_market = record {
  id = market_uuid;
  kind = market_match;
  match_id = codes "match";
  title = codes "Who wins?";
  state = market_open;
  currency = cad;
  opens_at = 1;
  closes_at = 9;
}

abbrev blue : Selection
blue = record {
  id = codes "blue";
  market_id = market_uuid;
  key = codes "blue-side";
  display_terms = codes "Blue wins";
  offered_odds = pos 150;
  semantic_result_key = codes "blue";
  active = true;
}

abbrev placing : PlaceWagerCommand
placing = record {
  wager_id = wager_uuid;
  user_id = member;
  market = match_market;
  selection = blue;
  restrictions = [];
  max_stake_cents = pos 5000;
  existing_stake_cents = pos 4000;
  selection_max_stake_cents = pos 0;
  existing_selection_stake_cents = pos 0;
  total_stake_cap_cents = pos 0;
  existing_total_stake_cents = pos 0;
  max_payout_cents = pos 0;
  placed_by = member;
  funding = funding_user_cash;
  stake = ten;
  idempotency_key = codes "key";
  now = 5;
}

placed_ok : place_wager placing ≡ ok waiting
unfolding place_wager check_placement check_open validate_market validate_market_type
    validate_market_state validate_selection matches_key is_restricted validate_wager is_blank
    trim_space is_space validate_funding validate_currency validate_odds validate_wager_state
    byte_length profit rounded quot rem negate overflows wrap64 ◌*ℤ◌ ◌+ℤ◌ ◌-ℤ◌
placed_ok = refl

place_wager_iff_example : (place_wager placing ≡ ok waiting) ↔ IsPlaced placing waiting
place_wager_iff_example = place_wager_iff placing waiting

place_wager_caps_example :
    (pos 0 <ℤ pos 5000 → pos 4000 +ℤ pos 1000 ≤ℤ pos 5000)
    × (pos 0 <ℤ pos 0 → pos 0 +ℤ pos 1000 ≤ℤ pos 0)
    × (pos 0 <ℤ pos 0 → pos 0 +ℤ pos 1000 ≤ℤ pos 0)
place_wager_caps_example =
    place_wager_caps placing (omega arith) (omega arith) (omega arith) (omega arith) placed_ok

-- The member has got ten dollars in cash.
abbrev payout : AdjustmentCommand
payout = record {
  adjustment_id = codes "a1";
  user_id = member;
  direction = payout_sent;
  amount = ten;
  reason = codes "cash";
  actor = admin;
  refs = record { user_funding = codes "cash"; house_clearing = codes "house" };
  occurred_at = 9;
}

abbrev recorded : Transaction
recorded = adjustment payout (opposite ten) ten

recorded_ok : record_adjustment payout ≡ ok recorded
unfolding record_adjustment validate_direction is_blank trim_space is_space validate_currency
    byte_length validate_adjustment_refs adjustment_key negate overflows wrap64 validate_transaction
    validate_type validate_postings check_postings check_posting contains ◌+ℤ◌ ◌-ℤ◌
recorded_ok = refl

abbrev undone : Transaction
undone = reversing recorded (codes "t1") admin (codes "typo") (reversed_postings payout)

undone_ok : reverse_adjustment recorded (codes "t1") admin (codes "typo") ≡ ok undone
unfolding reverse_adjustment negate_postings is_blank trim_space is_space validate_currency
    byte_length reversal_key adjustment_key negate overflows wrap64 validate_transaction
    validate_type validate_postings check_postings check_posting contains ◌+ℤ◌ ◌-ℤ◌
undone_ok = refl

recorded_valid : validate_transaction recorded ≡ ok tt
unfolding is_blank trim_space is_space validate_currency adjustment_key validate_transaction
    validate_type validate_postings check_postings check_posting contains wrap64 overflows ◌+ℤ◌ ◌-ℤ◌
recorded_valid = refl

reverse_adjustment-IsReversed_example : IsReversed recorded undone (codes "t1")
reverse_adjustment-IsReversed_example =
    reverse_adjustment-IsReversed recorded (codes "t1") admin (codes "typo") (omega arith)
      recorded_valid undone_ok

reverse_adjustment_total_example :
    reverse_adjustment recorded (codes "t1") admin (codes "typo") ≡ ok undone
unfolding is_blank trim_space is_space
reverse_adjustment_total_example =
    reverse_adjustment_total payout (codes "t1") admin (codes "typo") (omega arith) recorded_ok refl
      refl refl
