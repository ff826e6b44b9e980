-- ===== src/CompetitionStore/Examples.antt =====
-- A singles match between two players, won by the first one's side.
use go_book.Base.{Option, [], none, refl, ℕ, ◌∷◌, ◌≡◌}
use go_book.Base.Int.{pos}
use go_book.Base.Result.{ok}
use go_book.Base.Text.{Text, codes}
use go_book.CompetitionStore.Counted.{IsCounted}
use go_book.CompetitionStore.Delivered.{deliver, deliver-IsCounted, handle_again}
use go_book.CompetitionStore.Stats.{
  Participant, Projection, Statistics, Tally, commit, handle, handle_decoded, increment, is_applied,
  no_tally, outcome_for_side, participants_of, project, project_all, upsert,
}
use go_book.Events.Envelope.{Envelope, match_result_verified}
use go_book.Events.Payloads.{MatchResultVerifiedPayload}

abbrev verified : MatchResultVerifiedPayload
verified = record {
  match_id = codes "m";
  competition_event_id = codes "cup";
  verification_id = codes "v";
  outcome = codes "side_win";
  winning_side_id = codes "blue";
  score = codes "3&2";
}

-- A later result for the same match.
abbrev corrected : MatchResultVerifiedPayload
corrected = record verified { verification_id = codes "w"; winning_side_id = codes "red" }

abbrev entered : Text → Text → Participant
entered player side = record {
  match_id = codes "m";
  player_id = player;
  side_id = side;
  format = codes "singles";
}

abbrev before : Statistics
before = record {
  applied = [];
  participants = entered (codes "ann") (codes "blue") ∷ entered (codes "bob") (codes "red") ∷ [];
  projections = [];
}

before-IsCounted : IsCounted before
before-IsCounted = record { once_each = tt; each_counted = λ p. refl; rows_valid = tt }

abbrev event : MatchResultVerifiedPayload → Envelope MatchResultVerifiedPayload
event payload = record {
  id = payload.verification_id;
  aggregate_type = codes "match";
  aggregate_id = payload.match_id;
  aggregate_version = pos 1;
  event_type = match_result_verified;
  payload = payload;
  occurred_at = 1;
  correlation_id = [];
  causation_id = [];
}

abbrev steady : MatchResultVerifiedPayload → Statistics → Option Text
steady payload s = none

abbrev row : Text → ℕ → ℕ → ℕ → Projection
row player wins losses points =
    let result : Tally = record {
      played = 1;
      wins = wins;
      losses = losses;
      ties = 0;
      points = points;
    } in
    record {
      player_id = player;
      event_id = codes "cup";
      overall = result;
      singles = result;
      team = no_tally;
      version = 1;
    }

abbrev after : Statistics
after = record before {
  applied = codes "m" ∷ [];
  projections = row (codes "ann") 1 0 2 ∷ row (codes "bob") 0 1 0 ∷ [];
}

handled : handle ok steady (event verified) before ≡ (after, ok tt)
unfolding handle handle_decoded commit project is_applied project_all participants_of upsert
    increment outcome_for_side
handled = refl

deliver-IsCounted_example :
    IsCounted (deliver ok steady (event verified ∷ event corrected ∷ event verified ∷ []) before)
deliver-IsCounted_example =
    deliver-IsCounted ok steady (event verified ∷ event corrected ∷ event verified ∷ []) before
      before-IsCounted

handle_again_example :
    (handle ok steady (event corrected) (deliver ok steady (event verified ∷ []) after)).0
    ≡ deliver ok steady (event verified ∷ []) after
handle_again_example =
    handle_again ok steady (event verified) (event corrected) (event verified ∷ []) before after
      refl handled refl refl
