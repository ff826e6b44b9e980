-- ===== src/Betting/Parlay/Place.antt =====
-- internal/betting/parlay.go: striking a parlay.
use go_book.Base.{Bool, List, Option, [], false, length, ltb, map, none, not, ◌&&◌, ◌==◌, ◌||◌, ◌∷◌}
use go_book.Base.Int.{leb_ℤ, ltb_ℤ, pos, ℤ}
use go_book.Base.Result.{Result, fail_if, ok, require, ◌>>=◌, ◌>>◌}
use go_book.Base.Text.{Text, is_blank, text_eq, trim_space}
use go_book.Betting.Errors.{
  Error, from_ledger, invalid, of_ledger, parlay_duplicate_market, parlay_market_not_eligible,
  parlay_too_few_legs, parlay_too_many_legs, payout_above_limit, selection_inactive,
  selection_mismatch, user_restricted,
}
use go_book.Betting.Parlay.Price.{parlay_odds_for}
use go_book.Betting.Place.{Restriction, check_open, is_restricted}
use go_book.Betting.Types.{
  EntityId, FundingAccountType, Market, Selection, SettlementResult, WagerState, is_match, valid_id,
  validate_funding, validate_market, validate_selection, wager_pending,
}
use go_book.Events.Envelope.{Time, is_zero}
use go_book.Ledger.Money.{Money, currency_mismatch, validate_currency}
use go_book.Ledger.Odds.{AmericanOdds, profit}
use go_book.Pricing.Floats.{Floats}

pub record ParlayLeg : Type 0 where
  pub market_id : EntityId
  pub selection_id : EntityId
  pub accepted_odds : AmericanOdds
  pub accepted_terms : Text
  pub market_title : Text
  -- `none` until the leg's market settles
  pub result : Option SettlementResult

pub record Parlay : Type 0 where
  pub id : EntityId
  pub user_id : EntityId
  pub funding : FundingAccountType
  pub stake : Money
  pub accepted_odds : AmericanOdds
  pub potential_profit : Money
  pub legs : List ParlayLeg
  pub state : WagerState
  pub idempotency_key : Text
  pub placed_by : EntityId
  pub placed_at : Time

pub record PlaceParlayCommand : Type 0 where
  pub parlay_id : EntityId
  pub user_id : EntityId
  pub markets : List Market
  pub selections : List Selection
  pub restrictions : List Restriction
  pub juice_basis_points : ℤ
  pub max_payout_cents : ℤ
  pub placed_by : EntityId
  pub funding : FundingAccountType
  pub stake : Money
  pub idempotency_key : Text
  pub now : Time

-- `seenMarkets[id]`
unfoldable pub seen : EntityId → List EntityId → Bool
seen id [] = false
seen id (other ∷ others) = text_eq id other || seen id others

-- The guards before the loop over the legs.
unfoldable pub check_parlay : PlaceParlayCommand → Result Error (Unit {0})
check_parlay c = do
  fail_if (not (valid_id c.parlay_id) || not (valid_id c.user_id)) invalid
  require (length c.markets == length c.selections) invalid
  fail_if (ltb (length c.markets) 2) parlay_too_few_legs
  fail_if (ltb 8 (length c.markets)) parlay_too_many_legs
  fail_if (is_zero c.now) invalid
  validate_funding c.funding
  from_ledger (validate_currency c.stake.currency)
  fail_if (leb_ℤ c.stake.cents (pos 0)) invalid
  fail_if (is_blank c.idempotency_key) invalid

-- The guards of one round of the loop, up to the append.
unfoldable pub check_leg :
    PlaceParlayCommand → List EntityId → Market → Selection → Result Error (Unit {0})
check_leg c seen_markets market selection = do
  validate_market market
  validate_selection selection
  require (text_eq selection.market_id market.id) selection_mismatch
  require (is_match market.kind) parlay_market_not_eligible
  fail_if (seen market.id seen_markets) parlay_duplicate_market
  check_open market c.now
  require selection.active selection_inactive
  fail_if (is_restricted c.restrictions c.user_id selection.id) user_restricted
  require (text_eq c.stake.currency market.currency) (of_ledger currency_mismatch)

abbrev pub leg_of : Market → Selection → ParlayLeg
leg_of market selection = record {
  market_id = market.id;
  selection_id = selection.id;
  accepted_odds = selection.offered_odds;
  accepted_terms = selection.display_terms;
  market_title = market.title;
  result = none;
}

-- The loop. An index of `Selections` past its end would panic; `check_parlay` has compared the lengths.
unfoldable pub legs_of :
    PlaceParlayCommand
    → List EntityId
    → List Market
    → List Selection
    → Result Error (List ParlayLeg)
legs_of c seen_markets (market ∷ markets) (selection ∷ selections) = do
  check_leg c seen_markets market selection
  rest ← legs_of c (market.id ∷ seen_markets) markets selections
  ok (leg_of market selection ∷ rest)
legs_of c seen_markets _ _ = ok []

abbrev pub leg_odds : List ParlayLeg → List AmericanOdds
leg_odds legs = map (λ (leg : ParlayLeg). leg.accepted_odds) legs

abbrev pub parlay : PlaceParlayCommand → AmericanOdds → Money → List ParlayLeg → Parlay
parlay c price profit legs = record {
  id = c.parlay_id;
  user_id = c.user_id;
  funding = c.funding;
  stake = c.stake;
  accepted_odds = price;
  potential_profit = profit;
  legs = legs;
  state = wager_pending;
  idempotency_key = trim_space c.idempotency_key;
  placed_by = c.placed_by;
  placed_at = c.now;
}

module _ {F : Type 0} (fl : Floats F) where
  unfoldable pub place_parlay : PlaceParlayCommand → Result Error Parlay
  place_parlay c = do
    check_parlay c
    legs ← legs_of c [] c.markets c.selections
    price ← parlay_odds_for fl (leg_odds legs) c.juice_basis_points
    won ← from_ledger (profit price c.stake)
    fail_if (leb_ℤ won.cents (pos 0)) invalid
    fail_if (ltb_ℤ (pos 0) c.max_payout_cents && ltb_ℤ c.max_payout_cents won.cents)
        payout_above_limit
    ok (parlay c price won legs)
