-- ===== src/Betting/Market.antt =====
-- internal/betting/settle.go, grading and voiding a market. A Go map is a list of keys and values,
-- with no key twice.
use go_book.Base.{
  Bool, List, Option, [], false, if◌then◌else◌, length, ltb, none, not, some, suc, true, ℕ, ◌&&◌,
  ◌++◌, ◌==◌, ◌||◌, ◌∷◌,
}
use go_book.Base.Int.{add64, leb_ℤ, ltb_ℤ, pos, ℤ}
use go_book.Base.Result.{Result, err, fail_if, ok, require, ◌>>=◌, ◌>>◌}
use go_book.Base.Text.{codes, text_eq}
use go_book.Betting.Errors.{
  Error, incomplete_outcome, invalid, invalid_transition, selection_mismatch,
}
use go_book.Betting.Partition.{split_accepted_wagers}
use go_book.Betting.Payloads.{Payload, build_envelope, of_market_settled}
use go_book.Betting.Settle.{SettlementAccountRefs, WagerSettlement, settle_wager}
use go_book.Betting.Types.{
  EntityId, Market, MarketState, Selection, SettlementResult, Wager, market_closed, market_settled,
  market_settlement_pending, result_loss, result_push, result_win, valid_id, validate_market,
  validate_result,
}
use go_book.Events.Envelope.{Envelope, Time, is_zero, market_settled_event}

abbrev pub Dict {ℓ} : Type ℓ → Type ℓ
Dict V = List (EntityId × V)

abbrev pub lookup {ℓ} : {V : Type ℓ} → EntityId → Dict V → Option V
lookup k [] = none
lookup k ((j, v) ∷ d) = if text_eq k j then some v else lookup k d

-- A missing ID reads as the empty one.
abbrev pub lookup_id : EntityId → Dict EntityId → EntityId
lookup_id k d = elim (lookup k d) [ none ↦ [] | some v ↦ v ]

abbrev pub or_fail {ℓ} : {A : Type ℓ} → Option A → Error → Result Error A
or_fail none e = err e
or_fail (some a) e = ok a

abbrev pub MarketOutcome : Type 0
MarketOutcome = Dict SettlementResult

unfoldable pub check_outcome : MarketOutcome → List Selection → Result Error (Unit {0})
check_outcome o [] = ok tt
check_outcome o (s ∷ ss) = do
  result ← or_fail (lookup s.id o) incomplete_outcome
  validate_result result
  check_outcome o ss

-- `MarketOutcome.validate`
unfoldable pub validate_outcome : MarketOutcome → List Selection → Result Error (Unit {0})
unfolding check_outcome
validate_outcome o selections = do
  require (length o == length selections) incomplete_outcome
  check_outcome o selections

pub record SettleMarketCommand : Type 0 where
  pub market : Market
  pub selections : List Selection
  pub outcome : MarketOutcome
  pub wagers : List Wager
  pub refs : Dict SettlementAccountRefs
  pub wager_settlement_ids : Dict EntityId
  pub wager_event_ids : Dict EntityId
  pub settlement_id : EntityId
  pub version : ℤ
  pub actor : EntityId
  pub occurred_at : Time
  pub market_event_id : EntityId
  pub regrade : Bool
  pub dead_heat : Bool
  pub dead_heat_divisor : ℤ

pub record SettleMarketResult : Type 0 where
  pub market : Market
  pub wagers : List Wager
  pub settlements : List WagerSettlement
  pub market_event : Envelope Payload
  pub wager_events : List (Envelope Payload)
  pub dead_heat_divisor : ℤ

unfoldable pub count_wins : MarketOutcome → ℕ
count_wins [] = 0
count_wins ((_, result_win) ∷ o) = suc (count_wins o)
count_wins ((_, _) ∷ o) = count_wins o

-- `deadHeatDivisor`
unfoldable pub dead_heat_divisor_of : SettleMarketCommand → Result Error ℤ
dead_heat_divisor_of c =
    if not c.dead_heat
    then (fail_if (ltb_ℤ (pos 1) c.dead_heat_divisor) invalid >> ok (pos 1))
    else if ltb_ℤ (pos 0) c.dead_heat_divisor
    then (fail_if (ltb_ℤ c.dead_heat_divisor (pos 2)) invalid >> ok c.dead_heat_divisor)
    else (fail_if (ltb (count_wins c.outcome) 2) invalid >> ok (pos (count_wins c.outcome)))

-- The variables of the loop over the accepted wagers.
pub record Progress : Type 0 where
  pub wagers : List Wager
  pub settlements : List WagerSettlement
  pub events : List (Envelope Payload)
  pub win_count : ℤ
  pub loss_count : ℤ
  pub push_count : ℤ
  pub void_count : ℤ
  pub total_stake : ℤ
  pub total_profit : ℤ
  pub total_returned : ℤ

abbrev pub start : List Wager → Progress
start untouched = record {
  wagers = untouched;
  settlements = [];
  events = [];
  win_count = pos 0;
  loss_count = pos 0;
  push_count = pos 0;
  void_count = pos 0;
  total_stake = pos 0;
  total_profit = pos 0;
  total_returned = pos 0;
}

-- `counts[resultIndex(outcome)]++`
abbrev pub bump : SettlementResult → Progress → Progress
bump result_win p = record p { win_count = add64 p.win_count (pos 1) }
bump result_loss p = record p { loss_count = add64 p.loss_count (pos 1) }
bump result_push p = record p { push_count = add64 p.push_count (pos 1) }
bump _ p = record p { void_count = add64 p.void_count (pos 1) }

abbrev pub added : WagerSettlement × Wager × Envelope Payload → Progress → Progress
added (s, w, e) p = record p {
  wagers = p.wagers ++ (w ∷ []);
  settlements = p.settlements ++ (s ∷ []);
  events = p.events ++ (e ∷ []);
  total_stake = add64 p.total_stake s.stake.cents;
  total_profit = add64 p.total_profit s.profit.cents;
  total_returned = add64 p.total_returned s.returned.cents;
}

abbrev pub record_settlement :
    SettlementResult → WagerSettlement × Wager × Envelope Payload → Progress → Progress
record_settlement result done p = bump result (added done p)

-- One round of the loops of `SettleMarket` and `VoidMarket`, where the result is at hand.
unfoldable pub settle_one :
    SettlementResult
    → Dict SettlementAccountRefs
    → Dict EntityId
    → Dict EntityId
    → EntityId
    → ℤ
    → EntityId
    → Time
    → ℤ
    → Wager
    → Result Error (WagerSettlement × Wager × Envelope Payload)
settle_one result refs settlement_ids event_ids market_settlement_id version actor at divisor w = do
  r ← or_fail (lookup w.id refs) invalid
  let settlement_id = lookup_id w.id settlement_ids
  let event_id = lookup_id w.id event_ids
  fail_if (not (valid_id settlement_id) || not (valid_id event_id)) invalid
  settle_wager w result r market_settlement_id settlement_id version actor at event_id divisor

unfoldable pub settle_each : SettleMarketCommand → ℤ → List Wager → Progress → Result Error Progress
settle_each c divisor [] p = ok p
settle_each c divisor (w ∷ ws) p = do
  result ← or_fail (lookup w.selection_id c.outcome) incomplete_outcome
  done ←
      settle_one result c.refs c.wager_settlement_ids c.wager_event_ids c.settlement_id c.version
        c.actor c.occurred_at divisor w
  settle_each c divisor ws (record_settlement result done p)

abbrev can_settle : MarketState → Bool → Bool
can_settle market_closed _ = true
can_settle market_settlement_pending _ = true
can_settle market_settled regrade = regrade
can_settle _ _ = false

unfoldable pub all_of_market : EntityId → List Selection → Bool
all_of_market market_id [] = true
all_of_market market_id (s ∷ ss) = text_eq s.market_id market_id && all_of_market market_id ss

-- The guards of `SettleMarket`.
unfoldable pub check_settlement : SettleMarketCommand → Result Error (Unit {0})
check_settlement c = do
  validate_market c.market
  require (can_settle c.market.state c.regrade) invalid_transition
  fail_if (leb_ℤ c.version (pos 0)) invalid
  fail_if
      (not (valid_id c.settlement_id) || not (valid_id c.actor) || not (valid_id c.market_event_id))
      invalid
  fail_if (is_zero c.occurred_at) invalid
  require (all_of_market c.market.id c.selections) selection_mismatch
  validate_outcome c.outcome c.selections

abbrev pub totals : Market → ℤ → Progress → Payload
totals m version p = of_market_settled (record {
  market_id = m.id;
  version = version;
  win_count = p.win_count;
  loss_count = p.loss_count;
  push_count = p.push_count;
  void_count = p.void_count;
  total_stake_cents = p.total_stake;
  total_profit_cents = p.total_profit;
  total_returned_cents = p.total_returned;
  currency = m.currency;
})

unfoldable pub settle_market : SettleMarketCommand → Result Error SettleMarketResult
settle_market c = do
  check_settlement c
  divisor ← dead_heat_divisor_of c
  parts ← split_accepted_wagers c.market.id c.wagers
  p ← settle_each c divisor parts.0 (start parts.1)
  envelope ←
      build_envelope c.market_event_id c.market.id (codes "market") c.version market_settled_event
        c.occurred_at (totals c.market c.version p)
  ok (record {
    market = record c.market { state = market_settled };
    wagers = p.wagers;
    settlements = p.settlements;
    market_event = envelope;
    wager_events = p.events;
    dead_heat_divisor = divisor;
  })
