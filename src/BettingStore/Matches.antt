-- ===== src/BettingStore/Matches.antt =====
-- internal/bettingpg/match_settlement.go: `SettleMatchMarkets`, over the statements that it runs. `S` is
-- the database; an error is its message.
use go_book.Base.{Bool, List, Option, [], false, if◌then◌else◌, none, some, true, ◌++◌, ◌∷◌}
use go_book.Base.Result.{Result, err, ok}
use go_book.Base.Text.{Text, codes}
use go_book.Betting.Types.{EntityId, MarketState, is_market_open}
use go_book.BettingStore.Mapping.{Keys, Outcomes, build_match_outcome}
use go_book.Events.Dispatcher.{on_result}

pub record SettleMarketRequest : Type 0 where
  pub market_id : EntityId
  pub outcome : Outcomes
  pub actor_user_id : EntityId
  pub reason : Text
  pub verified_result_id : EntityId
  pub dead_heat : Bool

-- The calls of the store: the markets on the match that are not settled, in the order of their IDs, with
-- their states; closing a market; the keys of its selections; and settling it.
pub record MatchStore (S : Type 0) : Type 0 where
  pub match_markets_to_settle : EntityId → S → S × Result Text (List (EntityId × MarketState))
  pub close_market : EntityId → EntityId → S → S × Result Text (Unit {0})
  pub selection_semantic_keys : EntityId → S → S × Result Text Keys
  pub settle_market : SettleMarketRequest → S → S × Result Text (Unit {0})

pub record MatchSettleReport : Type 0 where
  pub match_id : EntityId
  pub settled : List EntityId
  pub skipped : List EntityId

-- The verified result that is settled, and who settles it.
pub record MatchResult : Type 0 where
  pub match_id : EntityId
  pub outcome : Text
  pub winning_side_id : EntityId
  pub verified_result_id : EntityId
  pub actor : EntityId

abbrev pub request : MatchResult → EntityId → Outcomes → SettleMarketRequest
request m market_id outcome = record {
  market_id = market_id;
  outcome = outcome;
  actor_user_id = m.actor;
  reason = codes "match result verified";
  verified_result_id = m.verified_result_id;
  dead_heat = false;
}

module _ {S : Type 0} (store : MatchStore S) (m : MatchResult) where
  unfoldable pub close_if_open : EntityId × MarketState → S → S × Result Text (Unit {0})
  close_if_open (market_id, state) s =
      if is_market_open state then store.close_market market_id m.actor s else (s, ok tt)

  -- One market: is it settled, or left for an administrator?
  unfoldable pub settle_one : EntityId × MarketState → S → S × Result Text Bool
  settle_one market s =
      on_result (close_if_open market s) (λ cause s1. (s1, err cause))
        λ _ s1.
          on_result (store.selection_semantic_keys market.0 s1) (λ cause s2. (s2, err cause))
            λ keys s2. elim (build_match_outcome keys m.outcome m.winning_side_id) [
              | none ↦ (s2, ok false)
              | some outcome ↦
                  on_result (store.settle_market (request m market.0 outcome) s2)
                    (λ cause s3. (s3, err cause)) λ _ s3. (s3, ok true)
            ]

  -- The loop over the markets; an error keeps what was reported before it.
  unfoldable pub settle_all :
      List (EntityId × MarketState) → MatchSettleReport → S → S × MatchSettleReport × Option Text
  settle_all [] report s = (s, report, none)
  settle_all (market ∷ markets) report s =
      on_result (settle_one market s) (λ cause s1. (s1, report, some cause))
        λ is_settled s1.
          settle_all markets
            (if is_settled
              then record report { settled = report.settled ++ market.0 ∷ [] }
              else record report { skipped = report.skipped ++ market.0 ∷ [] })
            s1

  unfoldable pub settle_match_markets : S → S × MatchSettleReport × Option Text
  settle_match_markets s =
      let report : MatchSettleReport = record {
        match_id = m.match_id;
        settled = [];
        skipped = [];
      } in
      on_result (store.match_markets_to_settle m.match_id s) (λ cause s1. (s1, report, some cause))
        λ markets s1. settle_all markets report s1
