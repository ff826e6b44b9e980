-- ===== src/Betting/Payloads.antt =====
-- internal/betting/events.go. The three payloads are one type, a constructor for each struct.
use go_book.Base.{[]}
use go_book.Base.Int.{ℤ}
use go_book.Base.Result.{Result, ok, ◌>>◌}
use go_book.Base.Text.{Text}
use go_book.Betting.Errors.{Error, from_envelope}
use go_book.Betting.Types.{EntityId, SettlementResult}
use go_book.Events.Envelope.{Envelope, Time, validate_envelope}

pub record WagerAcceptedPayload : Type 0 where
  pub wager_id : Text
  pub user_id : Text
  pub market_id : Text
  pub selection_id : Text
  pub stake_cents : ℤ
  pub currency : Text
  pub accepted_american_odds : ℤ
  pub potential_profit_cents : ℤ

pub record WagerSettledPayload : Type 0 where
  pub wager_id : Text
  pub user_id : Text
  pub result : SettlementResult
  pub stake_cents : ℤ
  pub profit_cents : ℤ
  pub returned_cents : ℤ
  pub currency : Text

pub record MarketSettledPayload : Type 0 where
  pub market_id : Text
  pub version : ℤ
  pub win_count : ℤ
  pub loss_count : ℤ
  pub push_count : ℤ
  pub void_count : ℤ
  pub total_stake_cents : ℤ
  pub total_profit_cents : ℤ
  pub total_returned_cents : ℤ
  pub currency : Text

pub data Payload : Type 0 where
  of_wager_accepted : WagerAcceptedPayload → Payload
  of_wager_settled : WagerSettledPayload → Payload
  of_market_settled : MarketSettledPayload → Payload

abbrev pub envelope_of : EntityId → EntityId → Text → ℤ → Text → Time → Payload → Envelope Payload
envelope_of id aggregate_id aggregate_type aggregate_version event_type occurred_at payload =
    record {
      id = id;
      aggregate_type = aggregate_type;
      aggregate_id = aggregate_id;
      aggregate_version = aggregate_version;
      event_type = event_type;
      payload = payload;
      occurred_at = occurred_at;
      correlation_id = [];
      causation_id = [];
    }

-- Encoding a struct of strings and integers cannot fail.
unfoldable pub build_envelope :
    EntityId → EntityId → Text → ℤ → Text → Time → Payload → Result Error (Envelope Payload)
build_envelope id aggregate_id aggregate_type aggregate_version event_type occurred_at payload =
    let e =
      envelope_of id aggregate_id aggregate_type aggregate_version event_type occurred_at payload in
    (from_envelope (validate_envelope e) >> ok e)
