-- ===== src/CompetitionStore/Stats.antt =====
-- internal/competitionpg/stats.go: the consumer that keeps the statistics of the players, over the rows
-- of its tables, with a pool at hand. Points are halves of a point: a win is two, a tie one.
use go_book.Base.{Bool, List, Option, [], false, if◌then◌else◌, none, some, ℕ, ◌&&◌, ◌+◌, ◌||◌, ◌∷◌}
use go_book.Base.Result.{Result, err, ok}
use go_book.Base.Text.{Text, codes, is_empty, text_eq}
use go_book.Events.Dispatcher.{Consumer}
use go_book.Events.Envelope.{Envelope, match_result_verified}
use go_book.Events.Payloads.{MatchResultVerifiedPayload}

-- One row of `match_participants`, with the format of its match.
pub record Participant : Type 0 where
  pub match_id : Text
  pub player_id : Text
  pub side_id : Text
  pub format : Text

-- Matches played, won, lost and tied, and points.
pub record Tally : Type 0 where
  pub played : ℕ
  pub wins : ℕ
  pub losses : ℕ
  pub ties : ℕ
  pub points : ℕ

-- One row of `player_stat_projections`: all matches, the singles and the others.
pub record Projection : Type 0 where
  pub player_id : Text
  pub event_id : Text
  pub overall : Tally
  pub singles : Tally
  pub team : Tally
  pub version : ℕ

-- The tables: the rows of `match_stat_applications` are match IDs.
pub record Statistics : Type 0 where
  pub applied : List Text
  pub participants : List Participant
  pub projections : List Projection

abbrev tally : ℕ → ℕ → ℕ → ℕ → Tally
tally wins losses ties points = record {
  played = 1;
  wins = wins;
  losses = losses;
  ties = ties;
  points = points;
}

abbrev pub no_tally : Tally
no_tally = record { played = 0; wins = 0; losses = 0; ties = 0; points = 0 }

abbrev add_tally : Tally → Tally → Tally
add_tally a b = record {
  played = a.played + b.played;
  wins = a.wins + b.wins;
  losses = a.losses + b.losses;
  ties = a.ties + b.ties;
  points = a.points + b.points;
}

-- `outcomeForSide`, with the one match that is played
unfoldable pub outcome_for_side : Text → Text → Text → Tally
outcome_for_side outcome winning_side_id side_id =
    if text_eq outcome (codes "tie")
    then tally 0 0 1 1
    else if text_eq outcome (codes "side_win")
    then (if text_eq side_id winning_side_id then tally 1 0 0 2 else tally 0 1 0 0)
    else tally 0 0 0 0

-- The row to insert; its numbers are also the increments.
unfoldable pub increment : MatchResultVerifiedPayload → Participant → Projection
increment payload p =
    let result = outcome_for_side payload.outcome payload.winning_side_id p.side_id in
    let is_singles = text_eq p.format (codes "singles") in
    record {
      player_id = p.player_id;
      event_id = payload.competition_event_id;
      overall = result;
      singles = if is_singles then result else no_tally;
      team = if is_singles then no_tally else result;
      version = 1;
    }

abbrev same_key : Projection → Projection → Bool
same_key a b = text_eq a.player_id b.player_id && text_eq a.event_id b.event_id

abbrev pub merged : Projection → Projection → Projection
merged old new = record old {
  overall = add_tally old.overall new.overall;
  singles = add_tally old.singles new.singles;
  team = add_tally old.team new.team;
  version = old.version + 1;
}

-- `INSERT … ON CONFLICT (player_id, event_id) DO UPDATE`
unfoldable pub upsert : Projection → List Projection → List Projection
upsert new [] = new ∷ []
upsert new (old ∷ olds) =
    let rest = upsert new olds in if same_key old new then merged old new ∷ olds else old ∷ rest

-- `SELECT … WHERE match_id = $1`
unfoldable pub participants_of : Text → List Participant → List Participant
participants_of id [] = []
participants_of id (p ∷ ps) =
    let rest = participants_of id ps in if text_eq p.match_id id then p ∷ rest else rest

unfoldable pub project_all :
    MatchResultVerifiedPayload → List Participant → List Projection → List Projection
project_all payload [] projections = projections
project_all payload (p ∷ ps) projections =
    project_all payload ps (upsert (increment payload p) projections)

unfoldable pub is_applied : Text → List Text → Bool
is_applied id [] = false
is_applied id (other ∷ others) = text_eq id other || is_applied id others

-- The transaction, in which every statement succeeds.
unfoldable pub project : MatchResultVerifiedPayload → Statistics → Statistics
project payload s = if is_applied payload.match_id s.applied then s else record s {
  applied = payload.match_id ∷ s.applied;
  projections = project_all payload (participants_of payload.match_id s.participants) s.projections;
}

-- The transaction, which the database may break off: then it is rolled back.
unfoldable pub commit :
    Option Text → MatchResultVerifiedPayload → Statistics → Statistics × Result Text (Unit {0})
commit (some cause) payload s = (s, err cause)
commit none payload s = (project payload s, ok tt)

-- The JSON decoder, and whether and why the database breaks a transaction off.
module _ {P : Type 0} (decode : P → Result Text MatchResultVerifiedPayload)
    (broken : MatchResultVerifiedPayload → Statistics → Option Text) where
  unfoldable pub handle_decoded :
      Result Text MatchResultVerifiedPayload → Statistics → Statistics × Result Text (Unit {0})
  handle_decoded (err cause) s = (s, err cause)
  handle_decoded (ok payload) s =
      if is_empty payload.match_id || is_empty payload.competition_event_id
      then (s, err (codes "payload missing match or event ID"))
      else commit (broken payload s) payload s

  -- `Handle`
  unfoldable pub handle : Envelope P → Statistics → Statistics × Result Text (Unit {0})
  handle e s = handle_decoded (decode e.payload) s

  -- `StatsProjectionConsumer`
  abbrev stats_projection_consumer : Consumer P Statistics
  stats_projection_consumer = record {
    name = codes "competition-stats-projection";
    handles = λ t. text_eq t match_result_verified;
    handle = handle;
  }
