-- ===== src/Betting/Types.antt =====
-- internal/betting/types.go. A string type with a fixed set of values is a data type, with one more
-- constructor for any other string.
use go_book.Base.{Bool, [], false, ltb, not, true, ◌&&◌, ◌==◌, ◌||◌, ◌∷◌}
use go_book.Base.Int.{leb_ℤ, ltb_ℤ, pos}
use go_book.Base.Result.{Result, err, fail_if, ok, require, ◌>>◌}
use go_book.Base.Text.{
  Text, byte_length, is_blank, is_digit, is_empty, is_lower, text_eq, trim_space,
}
use go_book.Betting.Errors.{Error, from_ledger, invalid}
use go_book.Events.Envelope.{Time, is_zero}
use go_book.Ledger.Money.{Currency, Money, validate_currency}
use go_book.Ledger.Odds.{AmericanOdds, validate_odds}

abbrev pub EntityId : Type 0
EntityId = Text

abbrev pub valid_id : EntityId → Bool
valid_id id = not (is_blank id)

-- `started` says that the segment has a character: `^[a-z0-9]+(?:[._-][a-z0-9]+)*$`
unfoldable pub matches_key : Bool → Text → Bool
matches_key started [] = started
matches_key started (c ∷ s) =
    let in_segment = is_lower c || is_digit c in
    (in_segment || (started && (c == b'.' || c == b'_' || c == b'-'))) && matches_key in_segment s

pub data MarketType : Type 0 where
  market_match market_future market_prop : MarketType
  other_market : Text → MarketType

abbrev pub is_match : MarketType → Bool
is_match market_match = true
is_match _ = false

unfoldable pub validate_market_type : MarketType → Result Error (Unit {0})
validate_market_type (other_market _) = err invalid
validate_market_type _ = ok tt

pub data MarketState : Type 0 where
  market_draft market_open market_closed market_settlement_pending : MarketState
  market_settled market_voided market_cancelled market_no_action : MarketState
  other_market_state : Text → MarketState

unfoldable pub validate_market_state : MarketState → Result Error (Unit {0})
validate_market_state (other_market_state _) = err invalid
validate_market_state _ = ok tt

abbrev pub is_market_open : MarketState → Bool
is_market_open market_open = true
is_market_open _ = false

-- `MarketState.CanTransitionTo`
market_can_transition : MarketState → MarketState → Bool
market_can_transition market_draft market_open = true
market_can_transition market_draft market_cancelled = true
market_can_transition market_open market_closed = true
market_can_transition market_open market_cancelled = true
market_can_transition market_closed market_voided = true
market_can_transition market_closed market_settlement_pending = true
market_can_transition market_closed market_no_action = true
market_can_transition market_settlement_pending market_settled = true
market_can_transition market_settlement_pending market_voided = true
market_can_transition market_settlement_pending market_no_action = true
market_can_transition _ _ = false

pub data WagerState : Type 0 where
  wager_pending wager_accepted wager_rejected wager_settled wager_voided : WagerState
  other_wager_state : Text → WagerState

unfoldable pub validate_wager_state : WagerState → Result Error (Unit {0})
validate_wager_state (other_wager_state _) = err invalid
validate_wager_state _ = ok tt

-- `WagerState.CanTransitionTo`
unfoldable pub wager_can_transition : WagerState → WagerState → Bool
wager_can_transition wager_pending wager_accepted = true
wager_can_transition wager_pending wager_rejected = true
wager_can_transition wager_accepted wager_settled = true
wager_can_transition wager_accepted wager_voided = true
wager_can_transition _ _ = false

abbrev pub is_accepted : WagerState → Bool
is_accepted wager_accepted = true
is_accepted _ = false

pub data SettlementResult : Type 0 where
  result_win result_loss result_push result_void : SettlementResult
  other_result : Text → SettlementResult

unfoldable pub validate_result : SettlementResult → Result Error (Unit {0})
validate_result (other_result _) = err invalid
validate_result _ = ok tt

pub data FundingAccountType : Type 0 where
  funding_user_cash funding_user_free_play : FundingAccountType
  other_funding : Text → FundingAccountType

unfoldable pub validate_funding : FundingAccountType → Result Error (Unit {0})
validate_funding (other_funding _) = err invalid
validate_funding _ = ok tt

pub record Market : Type 0 where
  pub id : EntityId
  pub kind : MarketType
  pub match_id : EntityId
  pub title : Text
  pub state : MarketState
  pub currency : Currency
  pub opens_at : Time
  pub closes_at : Time

-- `Market.Validate`
unfoldable pub validate_market : Market → Result Error (Unit {0})
validate_market m = do
  require (valid_id m.id) invalid
  validate_market_type m.kind
  fail_if (is_match m.kind && not (valid_id m.match_id)) invalid
  fail_if (not (is_match m.kind) && valid_id m.match_id) invalid
  fail_if (is_blank m.title || ltb 200 (byte_length (trim_space m.title))) invalid
  validate_market_state m.state
  from_ledger (validate_currency m.currency)
  fail_if (is_zero m.closes_at) invalid
  fail_if (not (is_zero m.opens_at) && not (ltb m.opens_at m.closes_at)) invalid

pub record Selection : Type 0 where
  pub id : EntityId
  pub market_id : EntityId
  pub key : Text
  pub display_terms : Text
  pub offered_odds : AmericanOdds
  pub semantic_result_key : Text
  pub active : Bool

-- `Selection.Validate`
unfoldable pub validate_selection : Selection → Result Error (Unit {0})
unfolding matches_key
validate_selection s = do
  fail_if (not (valid_id s.id) || not (valid_id s.market_id)) invalid
  require (matches_key false s.key) invalid
  fail_if (is_blank s.display_terms || ltb 500 (byte_length (trim_space s.display_terms))) invalid
  from_ledger (validate_odds s.offered_odds)

pub record Wager : Type 0 where
  pub id : EntityId
  pub user_id : EntityId
  pub market_id : EntityId
  pub selection_id : EntityId
  pub funding : FundingAccountType
  pub stake : Money
  pub accepted_odds : AmericanOdds
  pub accepted_terms : Text
  pub potential_profit : Money
  pub state : WagerState
  pub idempotency_key : Text
  pub placed_by : EntityId
  pub placed_at : Time

placed_for_member : Wager → Bool
placed_for_member w = not (is_empty w.placed_by) && not (text_eq w.placed_by w.user_id)

-- `Wager.Validate`
unfoldable pub validate_wager : Wager → Result Error (Unit {0})
validate_wager w = do
  fail_if
      (not (valid_id w.id)
        || not (valid_id w.user_id)
        || not (valid_id w.market_id)
        || not (valid_id w.selection_id))
      invalid
  validate_funding w.funding
  from_ledger (validate_currency w.stake.currency)
  fail_if (leb_ℤ w.stake.cents (pos 0)) invalid
  from_ledger (validate_odds w.accepted_odds)
  fail_if (is_blank w.accepted_terms || ltb 1000 (byte_length (trim_space w.accepted_terms)))
      invalid
  from_ledger (validate_currency w.potential_profit.currency)
  fail_if (ltb_ℤ w.potential_profit.cents (pos 0)) invalid
  validate_wager_state w.state
  fail_if (is_blank w.idempotency_key || ltb 200 (byte_length (trim_space w.idempotency_key)))
      invalid
