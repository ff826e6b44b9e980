-- ===== src/Competition/Types.antt =====
-- internal/competition/types.go. A string type with a fixed set of values is a data type, with one more
-- constructor for any other string.
use go_book.Base.{Bool, List, [], false, length, ltb, not, true, ℕ, ◌&&◌, ◌==◌, ◌||◌, ◌∷◌}
use go_book.Base.Result.{Result, err, fail_if, ok, require, ◌>>=◌, ◌>>◌}
use go_book.Base.Text.{Text, codes, is_blank, is_empty, text_eq, trim_space}
use go_book.Competition.Errors.{Error, invalid, invalid_transition}
use go_book.Events.Envelope.{Time, is_zero}

abbrev pub EntityId : Type 0
EntityId = Text

abbrev pub valid_id : EntityId → Bool
valid_id id = not (is_blank id)

-- `slices.Contains`
abbrev pub has : List EntityId → EntityId → Bool
has [] x = false
has (y ∷ ys) x = text_eq x y || has ys x

pub data Role : Type 0 where
  member admin owner : Role
  other_role : Text → Role

abbrev pub is_role : Role → Bool
is_role (other_role _) = false
is_role _ = true

abbrev pub privileged : Role → Bool
privileged admin = true
privileged owner = true
privileged _ = false

pub record Actor : Type 0 where
  pub user_id : EntityId
  pub player_id : EntityId
  pub role : Role

-- `Actor.validate`
abbrev pub validate_actor : Actor → Result Error (Unit {0})
validate_actor a = fail_if (not (valid_id a.user_id) || not (is_role a.role)) invalid

pub record Player : Type 0 where
  pub id : EntityId
  pub linked_user : EntityId
  pub display_name : Text

new_player : EntityId → Text → EntityId → Result Error Player
new_player id display_name linked_user = do
  fail_if (not (valid_id id) || is_empty (trim_space display_name)) invalid
  ok (record { id = id; linked_user = linked_user; display_name = trim_space display_name })

pub data EventState : Type 0 where
  event_scheduled event_active event_completed : EventState
  other_event_state : Text → EventState

pub record CompetitionEvent : Type 0 where
  pub id : EntityId
  pub name : Text
  pub venue : Text
  pub starts_at : Time
  pub ends_at : Time
  pub state : EventState

new_competition_event : EntityId → Text → Text → Time → Time → Result Error CompetitionEvent
new_competition_event id name venue starts_at ends_at = do
  fail_if
      (not (valid_id id)
        || is_empty (trim_space name)
        || is_empty (trim_space venue)
        || is_zero starts_at
        || is_zero ends_at
        || ltb ends_at starts_at)
      invalid
  ok (record {
    id = id;
    name = trim_space name;
    venue = trim_space venue;
    starts_at = starts_at;
    ends_at = ends_at;
    state = event_scheduled;
  })

abbrev event_allowed : EventState → EventState → Bool
event_allowed event_scheduled event_active = true
event_allowed event_active event_completed = true
event_allowed _ _ = false

-- `CompetitionEvent.Transition`
event_transition : CompetitionEvent → EventState → Result Error CompetitionEvent
event_transition e to = do
  require (event_allowed e.state to) invalid_transition
  ok (record e { state = to })

pub record Team : Type 0 where
  pub id : EntityId
  pub event_id : EntityId
  pub name : Text
  pub members : List EntityId
  pub captain_ids : List EntityId

-- The loop over the members, with those it has seen.
collect_members : List EntityId → List EntityId → Result Error (List EntityId)
collect_members seen [] = ok seen
collect_members seen (p ∷ ps) = do
  require (valid_id p) invalid
  fail_if (has seen p) invalid
  collect_members (p ∷ seen) ps

check_captains : List EntityId → List EntityId → List EntityId → Result Error (Unit {0})
check_captains members seen [] = ok tt
check_captains members seen (p ∷ ps) = do
  require (has members p) invalid
  fail_if (has seen p) invalid
  check_captains members (p ∷ seen) ps

new_team : EntityId → EntityId → Text → List EntityId → List EntityId → Result Error Team
new_team id event_id name members captains = do
  fail_if
      (not (valid_id id)
        || not (valid_id event_id)
        || is_empty (trim_space name)
        || length members == 0)
      invalid
  member_set ← collect_members [] members
  fail_if (length captains == 0) invalid
  check_captains member_set [] captains
  ok (record {
    id = id;
    event_id = event_id;
    name = trim_space name;
    members = members;
    captain_ids = captains;
  })

pub data MatchFormat : Type 0 where
  format_singles format_fourball format_foursomes format_scramble format_other : MatchFormat
  unknown_format : Text → MatchFormat

-- A maximum of zero is no maximum.
pub record ParticipantRule : Type 0 where
  pub min_per_side : ℕ
  pub max_per_side : ℕ

abbrev rule : ℕ → ℕ → ParticipantRule
rule least most = record { min_per_side = least; max_per_side = most }

unfoldable pub participant_rule_for : MatchFormat → Result Error ParticipantRule
participant_rule_for format_singles = ok (rule 1 1)
participant_rule_for format_fourball = ok (rule 2 2)
participant_rule_for format_foursomes = ok (rule 2 2)
participant_rule_for format_scramble = ok (rule 2 2)
participant_rule_for format_other = ok (rule 1 0)
participant_rule_for (unknown_format _) = err invalid

unfoldable pub validate_participant_counts : MatchFormat → ℕ → ℕ → Result Error (Unit {0})
validate_participant_counts format one two = do
  r ← participant_rule_for format
  fail_if (ltb one r.min_per_side || ltb two r.min_per_side) invalid
  fail_if (ltb 0 r.max_per_side && (ltb r.max_per_side one || ltb r.max_per_side two)) invalid

pub record MatchSide : Type 0 where
  pub id : EntityId
  pub team_id : EntityId
  pub participants : List EntityId

pub record MatchSpec : Type 0 where
  pub id : EntityId
  pub event_id : EntityId
  pub format : MatchFormat
  pub side_one : MatchSide
  pub side_two : MatchSide
  pub scheduled : Time

pub data ResultOutcome : Type 0 where
  side_win tie : ResultOutcome
  other_outcome : Text → ResultOutcome

abbrev pub outcome_text : ResultOutcome → Text
outcome_text side_win = codes "side_win"
outcome_text tie = codes "tie"
outcome_text (other_outcome s) = s

-- The `Result` of the source.
pub record MatchResult : Type 0 where
  pub outcome : ResultOutcome
  pub winning_side_id : EntityId
  pub score : Text

abbrev pub normalized : MatchResult → MatchResult
normalized r = record r { score = trim_space r.score }

-- `Result.validate`
unfoldable pub validate_match_result : MatchResult → EntityId → EntityId → Result Error (Unit {0})
validate_match_result r one two = elim r.outcome [
  | side_win ↦ require (text_eq r.winning_side_id one || text_eq r.winning_side_id two) invalid
  | tie ↦ fail_if (valid_id r.winning_side_id) invalid
  | other_outcome _ ↦ err invalid
]

-- `Result.equal`
pub results_equal : MatchResult → MatchResult → Bool
results_equal r other =
    text_eq (outcome_text r.outcome) (outcome_text other.outcome)
    && text_eq r.winning_side_id other.winning_side_id
    && text_eq (trim_space r.score) (trim_space other.score)
