-- ===== src/BettingStore/Worker.antt =====
-- internal/bettingpg/consumer.go: the consumer that settles the markets on a match when its result is
-- verified.
use go_book.Base.{Option, none, some}
use go_book.Base.Result.{Result, err, ok}
use go_book.Base.Text.{Text, codes, text_eq}
use go_book.BettingStore.Matches.{MatchResult, MatchSettleReport, MatchStore, settle_match_markets}
use go_book.Events.Dispatcher.{Consumer}
use go_book.Events.Envelope.{Envelope, match_result_verified}
use go_book.Events.Payloads.{MatchResultVerifiedPayload}

-- `matchSettlementActor`
abbrev settlement_actor : Text
settlement_actor = codes "system:settlement-worker"

abbrev pub match_result : MatchResultVerifiedPayload → MatchResult
match_result payload = record {
  match_id = payload.match_id;
  outcome = payload.outcome;
  winning_side_id = payload.winning_side_id;
  verified_result_id = payload.verification_id;
  actor = settlement_actor;
}

-- The error of the settlement, if there is one; the skipped markets are only logged.
unfoldable pub finished :
    {S : Type 0} → S × MatchSettleReport × Option Text → S × Result Text (Unit {0})
finished (s, report, none) = (s, ok tt)
finished (s, report, some cause) = (s, err cause)

module _ {P S : Type 0} (decode : P → Result Text MatchResultVerifiedPayload) where
  unfoldable pub settle_decoded :
      MatchStore S → Result Text MatchResultVerifiedPayload → S → S × Result Text (Unit {0})
  settle_decoded store (err cause) s = (s, err cause)
  settle_decoded store (ok payload) s =
      finished (settle_match_markets store (match_result payload) s)

  -- `Handle`
  unfoldable pub handle : Option (MatchStore S) → Envelope P → S → S × Result Text (Unit {0})
  handle none e s = (s, err (codes "betting-match-settlement: store is required"))
  handle (some store) e s = settle_decoded store (decode e.payload) s

  -- `MatchSettlementConsumer`
  abbrev match_settlement_consumer : Option (MatchStore S) → Consumer P S
  match_settlement_consumer store = record {
    name = codes "betting-match-settlement";
    handles = λ t. text_eq t match_result_verified;
    handle = handle store;
  }
