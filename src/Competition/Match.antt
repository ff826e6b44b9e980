-- ===== src/Competition/Match.antt =====
-- internal/competition/match.go, the aggregate and its helpers. The lock that each command holds makes
-- the commands a sequence; a command returns the next state, and an error leaves the state as it was,
-- since every guard stands before the first assignment. `commands` is a map from command IDs to
-- fingerprints: the newest entry of a key counts.
use go_book.Base.{
  Bool, List, Option, [], false, if◌then◌else◌, length, none, not, some, true, ℕ, ◌&&◌, ◌++◌, ◌||◌,
  ◌∷◌,
}
use go_book.Base.Result.{Result, fail_if, ok, require, ◌>>=◌, ◌>>◌}
use go_book.Base.Text.{Text, text_eq}
use go_book.Competition.Errors.{Error, idempotency_conflict, invalid}
use go_book.Competition.Types.{
  Actor, EntityId, MatchResult, MatchSpec, Team, has, participant_rule_for, valid_id,
  validate_actor, validate_participant_counts,
}
use go_book.Events.Envelope.{Time, is_zero}

pub data MatchState : Type 0 where
  awaiting_result awaiting_confirmation disputed verified : MatchState

abbrev pub is_awaiting_confirmation : MatchState → Bool
is_awaiting_confirmation awaiting_confirmation = true
is_awaiting_confirmation _ = false

pub data SubmissionState : Type 0 where
  pending confirmed in_dispute superseded : SubmissionState

pub data ConfirmationDecision : Type 0 where
  decision_confirmed decision_disputed : ConfirmationDecision

pub data VerificationMethod : Type 0 where
  by_opponent by_override by_correction : VerificationMethod

pub record ResultSubmission : Type 0 where
  pub id : EntityId
  pub submitter_user : EntityId
  pub submitter_player : EntityId
  pub submitter_side : EntityId
  pub result : MatchResult
  pub state : SubmissionState
  pub submitted_at : Time

pub record ResultConfirmation : Type 0 where
  pub id : EntityId
  pub submission_id : EntityId
  pub actor_user_id : EntityId
  pub actor_side_id : EntityId
  pub decision : ConfirmationDecision
  pub reason : Text
  pub decided_at : Time

-- The version is a Go int that starts at 1 and counts the corrections.
pub record VerifiedResult : Type 0 where
  pub id : EntityId
  pub version : ℕ
  pub result : MatchResult
  pub method : VerificationMethod
  pub actor_user_id : EntityId
  pub reason : Text
  pub submission_id : EntityId
  pub supersedes_id : EntityId
  pub verified_at : Time

pub record Match : Type 0 where
  pub spec : MatchSpec
  pub team_one : Team
  pub team_two : Team
  pub state : MatchState
  pub submissions : List ResultSubmission
  pub confirmations : List ResultConfirmation
  pub verified_results : List VerifiedResult
  pub commands : List (EntityId × Text)

pub data EventType : Type 0 where
  match_result_submitted match_result_disputed : EventType
  match_result_verified match_result_corrected : EventType

-- internal/competition/events.go
pub record DomainEvent : Type 0 where
  pub kind : EventType
  pub match_id : EntityId
  pub competition_event_id : EntityId
  pub submission_id : EntityId
  pub verification_id : EntityId
  pub previous_verification_id : EntityId
  pub actor_user_id : EntityId
  pub result : MatchResult
  pub reason : Text
  pub occurred_at : Time

-- The participants of one side, with those that were seen before.
unfoldable pub check_side : Team → List EntityId → List EntityId → Result Error (List EntityId)
check_side team seen [] = ok seen
check_side team seen (p ∷ ps) = do
  require (has team.members p) invalid
  fail_if (has seen p) invalid
  check_side team (p ∷ seen) ps

unfoldable pub new_match : MatchSpec → Team → Team → Result Error Match
new_match spec one two = do
  fail_if (not (valid_id spec.id) || not (valid_id spec.event_id) || is_zero spec.scheduled) invalid
  _ ← participant_rule_for spec.format
  fail_if
      (not (text_eq one.id spec.side_one.team_id)
        || not (text_eq two.id spec.side_two.team_id)
        || text_eq one.id two.id)
      invalid
  fail_if (not (text_eq one.event_id spec.event_id) || not (text_eq two.event_id spec.event_id))
      invalid
  fail_if
      (not (valid_id spec.side_one.id)
        || not (valid_id spec.side_two.id)
        || text_eq spec.side_one.id spec.side_two.id)
      invalid
  validate_participant_counts spec.format (length spec.side_one.participants)
      (length spec.side_two.participants)
  seen ← check_side one [] spec.side_one.participants
  _ ← check_side two seen spec.side_two.participants
  ok (record {
    spec = spec;
    team_one = one;
    team_two = two;
    state = awaiting_result;
    submissions = [];
    confirmations = [];
    verified_results = [];
    commands = [];
  })

unfoldable pub all_valid : List EntityId → Bool
all_valid [] = true
all_valid (id ∷ ids) = valid_id id && all_valid ids

unfoldable pub validate_command : Actor → Time → List EntityId → Result Error (Unit {0})
validate_command actor at ids = do
  validate_actor actor
  fail_if (is_zero at) invalid
  require (all_valid ids) invalid

unfoldable pub is_submitter : Actor → ResultSubmission → Bool
is_submitter actor s =
    text_eq actor.user_id s.submitter_user
    || (valid_id actor.player_id && text_eq actor.player_id s.submitter_player)

-- The side an actor plays for or captains; none when he is on neither.
unfoldable pub acting_side : Match → Actor → Option EntityId
acting_side m actor =
    if has m.spec.side_one.participants actor.player_id
      || has m.team_one.captain_ids actor.player_id
    then some m.spec.side_one.id
    else if has m.spec.side_two.participants actor.player_id
        || has m.team_two.captain_ids actor.player_id
    then some m.spec.side_two.id
    else none

unfoldable pub submission_by_id : List ResultSubmission → EntityId → Option ResultSubmission
submission_by_id [] id = none
submission_by_id (s ∷ ss) id = if text_eq s.id id then some s else submission_by_id ss id

abbrev pub is_pending : SubmissionState → Bool
is_pending pending = true
is_pending _ = false

pub pending_submission : List ResultSubmission → Option ResultSubmission
pending_submission [] = none
pending_submission (s ∷ ss) = if is_pending s.state then some s else pending_submission ss

unfoldable pub has_confirmation : List ResultConfirmation → EntityId → Bool
has_confirmation [] id = false
has_confirmation (c ∷ cs) id = text_eq c.id id || has_confirmation cs id

unfoldable pub has_verification : List VerifiedResult → EntityId → Bool
has_verification [] id = false
has_verification (v ∷ vs) id = text_eq v.id id || has_verification vs id

abbrev pub lookup_command : EntityId → List (EntityId × Text) → Option Text
lookup_command id [] = none
lookup_command id ((k, fingerprint) ∷ cs) =
    if text_eq id k then some fingerprint else lookup_command id cs

-- `checkCommand`: was the command run before?
unfoldable pub check_command : Match → EntityId → Text → Result Error Bool
check_command m id fingerprint = do
  require (valid_id id) invalid
  elim (lookup_command id m.commands) [
    | none ↦ ok false
    | some previous ↦ require (text_eq previous fingerprint) idempotency_conflict >> ok true
  ]

-- The pointers of the source lead into the list: a change of the state of the submission found.
unfoldable pub set_state_by_id :
    EntityId → SubmissionState → List ResultSubmission → List ResultSubmission
set_state_by_id id state [] = []
set_state_by_id id state (s ∷ ss) =
    if text_eq s.id id then record s { state = state } ∷ ss else s ∷ set_state_by_id id state ss

unfoldable pub dispute_pending : List ResultSubmission → List ResultSubmission
dispute_pending [] = []
dispute_pending (s ∷ ss) =
    if is_pending s.state then record s { state = in_dispute } ∷ ss else s ∷ dispute_pending ss

-- The answer to a command that was run before, or what `run` makes of it.
unfoldable pub once :
    Match
    → EntityId
    → Text
    → Result Error (Match × List DomainEvent)
    → Result Error (Match × List DomainEvent)
once m id fingerprint run = do
  replay ← check_command m id fingerprint
  if replay then ok (m, []) else run

-- The fields of a command's fingerprint, each after a NUL.
abbrev pub fields : List Text → Text
fields [] = []
fields (s ∷ ss) = 0 ∷ (s ++ fields ss)
