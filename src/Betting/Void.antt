-- ===== src/Betting/Void.antt =====
-- internal/betting/settle.go, voiding a market: every accepted wager is refunded.
use go_book.Base.{Bool, List, [], false, length, not, true, ℕ, ◌++◌, ◌||◌, ◌∷◌}
use go_book.Base.Int.{add64, leb_ℤ, pos, ℤ}
use go_book.Base.Result.{Result, fail_if, ok, require, ◌>>=◌, ◌>>◌}
use go_book.Base.Text.{Text, codes, is_blank}
use go_book.Betting.Errors.{Error, invalid, invalid_transition, reason_required}
use go_book.Betting.Market.{Dict, SettleMarketResult, settle_one}
use go_book.Betting.Partition.{split_accepted_wagers}
use go_book.Betting.Payloads.{Payload, build_envelope, of_market_settled}
use go_book.Betting.Settle.{SettlementAccountRefs, WagerSettlement}
use go_book.Betting.Types.{
  EntityId, Market, MarketState, Wager, market_closed, market_open, market_settlement_pending,
  market_voided, result_void, valid_id, validate_market,
}
use go_book.Events.Envelope.{Envelope, Time, is_zero, market_settled_event}

pub record VoidMarketCommand : Type 0 where
  pub market : Market
  pub wagers : List Wager
  pub refs : Dict SettlementAccountRefs
  pub wager_settlement_ids : Dict EntityId
  pub wager_event_ids : Dict EntityId
  pub settlement_id : EntityId
  pub version : ℤ
  pub actor : EntityId
  pub reason : Text
  pub occurred_at : Time
  pub market_event_id : EntityId

abbrev can_void : MarketState → Bool
can_void market_open = true
can_void market_closed = true
can_void market_settlement_pending = true
can_void _ = false

pub record Voided : Type 0 where
  pub wagers : List Wager
  pub settlements : List WagerSettlement
  pub events : List (Envelope Payload)
  pub total_stake : ℤ

unfoldable pub void_each : VoidMarketCommand → List Wager → Voided → Result Error Voided
void_each c [] p = ok p
void_each c (w ∷ ws) p = do
  done ←
      settle_one result_void c.refs c.wager_settlement_ids c.wager_event_ids c.settlement_id
        c.version c.actor c.occurred_at (pos 1) w
  void_each c ws (record {
    wagers = p.wagers ++ (done.1 ∷ []);
    settlements = p.settlements ++ (done.0 ∷ []);
    events = p.events ++ (done.2 ∷ []);
    total_stake = add64 p.total_stake done.0.stake.cents;
  })

-- The guards of `VoidMarket`.
unfoldable pub check_void : VoidMarketCommand → Result Error (Unit {0})
check_void c = do
  validate_market c.market
  require (can_void c.market.state) invalid_transition
  fail_if (is_blank c.reason) reason_required
  fail_if (leb_ℤ c.version (pos 0)) invalid
  fail_if
      (not (valid_id c.settlement_id) || not (valid_id c.actor) || not (valid_id c.market_event_id))
      invalid
  fail_if (is_zero c.occurred_at) invalid

abbrev pub void_totals : VoidMarketCommand → ℕ → ℤ → Payload
void_totals c accepted total = of_market_settled (record {
  market_id = c.market.id;
  version = c.version;
  win_count = pos 0;
  loss_count = pos 0;
  push_count = pos 0;
  void_count = pos accepted;
  total_stake_cents = total;
  total_profit_cents = pos 0;
  total_returned_cents = total;
  currency = c.market.currency;
})

-- The Go struct leaves the divisor at its zero value.
unfoldable pub void_market : VoidMarketCommand → Result Error SettleMarketResult
void_market c = do
  check_void c
  parts ← split_accepted_wagers c.market.id c.wagers
  p ←
      void_each c parts.0
        (record { wagers = parts.1; settlements = []; events = []; total_stake = pos 0 })
  envelope ←
      build_envelope c.market_event_id c.market.id (codes "market") c.version market_settled_event
        c.occurred_at (void_totals c (length parts.0) p.total_stake)
  ok (record {
    market = record c.market { state = market_voided };
    wagers = p.wagers;
    settlements = p.settlements;
    market_event = envelope;
    wager_events = p.events;
    dead_heat_divisor = pos 0;
  })
