-- ===== src/Betting/Place.antt =====
-- internal/betting/place.go, placing a wager.
use go_book.Base.{Bool, List, [], false, if◌then◌else◌, ltb, not, ◌&&◌, ◌||◌, ◌∷◌}
use go_book.Base.Int.{add64, leb_ℤ, ltb_ℤ, pos, ℤ}
use go_book.Base.Result.{Result, fail_if, ok, require, ◌>>=◌, ◌>>◌}
use go_book.Base.Text.{Text, is_blank, is_empty, text_eq, trim_space}
use go_book.Betting.Errors.{
  Error, from_ledger, invalid, market_not_open, of_ledger, payout_above_limit, selection_inactive,
  selection_mismatch, side_full, stake_above_limit, user_restricted,
}
use go_book.Betting.Types.{
  FundingAccountType, EntityId, Market, Selection, Wager, is_market_open, valid_id,
  validate_funding, validate_market, validate_selection, validate_wager, wager_pending,
}
use go_book.Events.Envelope.{Time, is_zero}
use go_book.Ledger.Money.{Money, currency_mismatch, validate_currency}
use go_book.Ledger.Odds.{profit}

pub record Restriction : Type 0 where
  pub user_id : EntityId
  pub selection_id : EntityId
  pub reason : Text

-- `Restriction.Restricts`
unfoldable pub restricts : Restriction → EntityId → EntityId → Bool
restricts r user_id selection_id =
    if not (text_eq r.user_id user_id)
    then false
    else (is_empty r.selection_id || text_eq r.selection_id selection_id)

-- The loop over the restrictions: does one of them bar the member?
unfoldable pub is_restricted : List Restriction → EntityId → EntityId → Bool
is_restricted [] user_id selection_id = false
is_restricted (r ∷ rs) user_id selection_id =
    restricts r user_id selection_id || is_restricted rs user_id selection_id

pub record PlaceWagerCommand : Type 0 where
  pub wager_id : EntityId
  pub user_id : EntityId
  pub market : Market
  pub selection : Selection
  pub restrictions : List Restriction
  pub max_stake_cents : ℤ
  pub existing_stake_cents : ℤ
  pub selection_max_stake_cents : ℤ
  pub existing_selection_stake_cents : ℤ
  pub total_stake_cap_cents : ℤ
  pub existing_total_stake_cents : ℤ
  pub max_payout_cents : ℤ
  pub placed_by : EntityId
  pub funding : FundingAccountType
  pub stake : Money
  pub idempotency_key : Text
  pub now : Time

-- A cap of zero is no cap.
abbrev pub above_cap : ℤ → ℤ → ℤ → Bool
above_cap cap existing stake = ltb_ℤ (pos 0) cap && ltb_ℤ cap (add64 existing stake)

-- The tests of the market's state and times that a single wager and a parlay share.
unfoldable pub check_open : Market → Time → Result Error (Unit {0})
check_open m now = do
  require (is_market_open m.state) market_not_open
  fail_if (not (is_zero m.opens_at) && ltb now m.opens_at) market_not_open
  require (ltb now m.closes_at) market_not_open

-- The steps of `PlaceWager` before any price is computed.
unfoldable pub check_placement : PlaceWagerCommand → Result Error (Unit {0})
check_placement c = do
  fail_if (not (valid_id c.wager_id) || not (valid_id c.user_id)) invalid
  validate_market c.market
  validate_selection c.selection
  require (text_eq c.selection.market_id c.market.id) selection_mismatch
  fail_if (is_zero c.now) invalid
  check_open c.market c.now
  require c.selection.active selection_inactive
  fail_if (is_restricted c.restrictions c.user_id c.selection.id) user_restricted
  validate_funding c.funding
  from_ledger (validate_currency c.stake.currency)
  fail_if (leb_ℤ c.stake.cents (pos 0)) invalid
  require (text_eq c.stake.currency c.market.currency) (of_ledger currency_mismatch)
  fail_if (above_cap c.max_stake_cents c.existing_stake_cents c.stake.cents) stake_above_limit
  fail_if (above_cap c.selection_max_stake_cents c.existing_selection_stake_cents c.stake.cents)
      stake_above_limit
  fail_if (above_cap c.total_stake_cap_cents c.existing_total_stake_cents c.stake.cents) side_full
  fail_if (is_blank c.idempotency_key) invalid

abbrev pub placed : PlaceWagerCommand → Money → Wager
placed c won = record {
  id = c.wager_id;
  user_id = c.user_id;
  market_id = c.market.id;
  selection_id = c.selection.id;
  funding = c.funding;
  stake = c.stake;
  accepted_odds = c.selection.offered_odds;
  accepted_terms = c.selection.display_terms;
  potential_profit = won;
  state = wager_pending;
  idempotency_key = trim_space c.idempotency_key;
  placed_by = c.placed_by;
  placed_at = c.now;
}

unfoldable pub place_wager : PlaceWagerCommand → Result Error Wager
place_wager c = do
  check_placement c
  won ← from_ledger (profit c.selection.offered_odds c.stake)
  fail_if (leb_ℤ won.cents (pos 0)) invalid
  fail_if (ltb_ℤ (pos 0) c.max_payout_cents && ltb_ℤ c.max_payout_cents won.cents)
      payout_above_limit
  validate_wager (placed c won)
  ok (placed c won)
