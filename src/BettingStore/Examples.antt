-- ===== src/BettingStore/Examples.antt =====
-- A match that the side `a` has won, and three markets on it.
use go_book.Base.{[], if◌then◌else◌, none, refl, some, ℕ, ◌+◌, ◌∷◌, ◌≡◌}
use go_book.Base.Int.{pos}
use go_book.Base.Result.{ok}
use go_book.Base.Text.{codes, is_space, text_eq, trim_left, trim_space}
use go_book.Betting.Types.{market_closed, market_open, result_loss}
use go_book.BettingStore.Mapped.{IsMapped, build_match_outcome-IsMapped}
use go_book.BettingStore.Mapping.{
  Keys, all_recognized, build_match_outcome, has_prefix, recognized, side_outcome,
}
use go_book.BettingStore.Matches.{
  MatchResult, MatchSettleReport, MatchStore, close_if_open, settle_all, settle_match_markets,
  settle_one,
}
use go_book.BettingStore.Worked.{IsGraded, handle-IsGraded}
use go_book.BettingStore.Worker.{finished, handle, settle_decoded}
use go_book.Events.Envelope.{Envelope, match_result_verified}
use go_book.Events.Payloads.{MatchResultVerifiedPayload}

abbrev win_keys : Keys
win_keys = (codes "s1", codes "side:a") ∷ (codes "s2", codes "side:b") ∷ []

-- A space after the key: it is recognized, and yet it is not the key of the winning side.
padded :
    build_match_outcome ((codes "s1", codes "side:a ") ∷ []) (codes "side_win") (codes "a")
    ≡ some ((codes "s1", result_loss) ∷ [])
unfolding build_match_outcome all_recognized recognized has_prefix trim_space trim_left is_space
    side_outcome
padded = refl

build_match_outcome-IsMapped_example :
    IsMapped win_keys
      (codes "side_win")
      (codes "a")
      (build_match_outcome win_keys (codes "side_win") (codes "a"))
build_match_outcome-IsMapped_example =
    build_match_outcome-IsMapped win_keys (codes "side_win") (codes "a")

-- The state counts the settlements; the second market has no keys.
abbrev counting : MatchStore ℕ
counting = record {
  match_markets_to_settle =
      λ id s. (s, ok ((codes "m1", market_open) ∷ (codes "m2", market_closed) ∷ []));
  close_market = λ id actor s. (s, ok tt);
  selection_semantic_keys = λ id s. (s, ok (if text_eq id (codes "m1") then win_keys else []));
  settle_market = λ r s. (s + 1, ok tt);
}

abbrev verified : MatchResult
verified = record {
  match_id = codes "match";
  outcome = codes "side_win";
  winning_side_id = codes "a";
  verified_result_id = codes "v1";
  actor = codes "system:settlement-worker";
}

abbrev report : MatchSettleReport
report = record { match_id = codes "match"; settled = codes "m1" ∷ []; skipped = codes "m2" ∷ [] }

settled_ok : settle_match_markets counting verified 0 ≡ (1, report, none)
unfolding settle_match_markets settle_all settle_one close_if_open build_match_outcome
    all_recognized recognized has_prefix trim_space trim_left is_space side_outcome
settled_ok = refl

abbrev payload : MatchResultVerifiedPayload
payload = record {
  match_id = codes "match";
  competition_event_id = codes "cup";
  verification_id = codes "v1";
  outcome = codes "side_win";
  winning_side_id = codes "a";
  score = codes "3&2";
}

abbrev event : Envelope MatchResultVerifiedPayload
event = record {
  id = codes "e";
  aggregate_type = codes "match";
  aggregate_id = codes "match";
  aggregate_version = pos 1;
  event_type = match_result_verified;
  payload = payload;
  occurred_at = 1;
  correlation_id = [];
  causation_id = [];
}

handled : handle ok (some counting) event 0 ≡ (1, ok tt)
unfolding handle settle_decoded finished settle_match_markets settle_all settle_one close_if_open
    build_match_outcome all_recognized recognized has_prefix trim_space trim_left is_space
    side_outcome
handled = refl

handle-IsGraded_example : IsGraded counting payload 0 1
handle-IsGraded_example = handle-IsGraded ok counting event 0 refl handled
