-- ===== src/Competition/Submit.antt =====
-- internal/competition/match.go, submitting a result.
use go_book.Base.{
  Bool, List, Option, [], false, if◌then◌else◌, none, not, some, true, ◌&&◌, ◌++◌, ◌||◌, ◌∷◌,
}
use go_book.Base.Result.{Result, err, fail_if, ok, require, ◌>>◌}
use go_book.Base.Text.{Text, codes, text_eq, trim_space}
use go_book.Competition.Errors.{
  Error, already_exists, invalid_transition, not_opposing_side, own_submission, unauthorized,
}
use go_book.Competition.Match.{
  DomainEvent, EventType, Match, MatchState, ResultSubmission, SubmissionState, acting_side,
  awaiting_confirmation, awaiting_result, dispute_pending, disputed, fields, in_dispute,
  is_awaiting_confirmation, is_submitter, match_result_disputed, match_result_submitted, once,
  pending, pending_submission, submission_by_id, validate_command,
}
use go_book.Competition.Types.{
  Actor, EntityId, MatchResult, normalized, outcome_text, privileged, results_equal, valid_id,
  validate_match_result,
}
use go_book.Events.Envelope.{Time}

pub record SubmitResultCommand : Type 0 where
  pub command_id : EntityId
  pub submission_id : EntityId
  pub actor : Actor
  pub result : MatchResult
  pub occurred_at : Time

unfoldable pub submit_fingerprint : SubmitResultCommand → Text
submit_fingerprint c =
    codes "submit"
    ++ fields (
        c.submission_id
        ∷ c.actor.user_id
        ∷ outcome_text c.result.outcome
        ∷ c.result.winning_side_id
        ∷ trim_space c.result.score
        ∷ [])

abbrev pub submission : SubmitResultCommand → EntityId → SubmissionState → ResultSubmission
submission c side state = record {
  id = c.submission_id;
  submitter_user = c.actor.user_id;
  submitter_player = c.actor.player_id;
  submitter_side = side;
  result = normalized c.result;
  state = state;
  submitted_at = c.occurred_at;
}

abbrev submit_event : Match → SubmitResultCommand → EventType → Text → DomainEvent
submit_event m c kind reason = record {
  kind = kind;
  match_id = m.spec.id;
  competition_event_id = m.spec.event_id;
  submission_id = c.submission_id;
  verification_id = [];
  previous_verification_id = [];
  actor_user_id = c.actor.user_id;
  result = normalized c.result;
  reason = reason;
  occurred_at = c.occurred_at;
}

abbrev takes_results : MatchState → Bool
takes_results awaiting_result = true
takes_results awaiting_confirmation = true
takes_results _ = false

-- The zero value of an ID for an actor that is on neither side.
abbrev pub side_id : Option EntityId → EntityId
side_id none = []
side_id (some id) = id

abbrev pub first_submission : Match → SubmitResultCommand → Match
first_submission m c = record m {
  submissions = m.submissions ++ (submission c (side_id (acting_side m c.actor)) pending ∷ []);
  state = awaiting_confirmation;
  commands = (c.command_id, submit_fingerprint c) ∷ m.commands;
}

abbrev pub second_submission : Match → SubmitResultCommand → Match
second_submission m c = record m {
  submissions =
      dispute_pending m.submissions
      ++ (submission c (side_id (acting_side m c.actor)) in_dispute ∷ []);
  state = disputed;
  commands = (c.command_id, submit_fingerprint c) ∷ m.commands;
}

abbrev is_some {ℓ} : {A : Type ℓ} → Option A → Bool
is_some none = false
is_some (some _) = true

-- A result while another waits for its confirmation: both are in dispute, if they differ.
unfoldable pub submit_second : Match → SubmitResultCommand → Result Error (Match × List DomainEvent)
submit_second m c = elim (pending_submission m.submissions) [
  | none ↦ err invalid_transition
  | some p ↦ do
    fail_if (is_submitter c.actor p) own_submission
    fail_if
        (not (is_some (acting_side m c.actor))
          || not (valid_id p.submitter_side)
          || text_eq (side_id (acting_side m c.actor)) p.submitter_side)
        not_opposing_side
    fail_if (results_equal p.result (normalized c.result)) already_exists
    ok (
      second_submission m c,
      submit_event m c match_result_submitted []
          ∷ submit_event m c match_result_disputed (codes "conflicting result submissions")
          ∷ [],
    )
]

unfoldable pub submit_new : Match → SubmitResultCommand → Result Error (Match × List DomainEvent)
submit_new m c = do
  require (takes_results m.state) invalid_transition
  validate_command c.actor c.occurred_at (c.submission_id ∷ [])
  validate_match_result c.result m.spec.side_one.id m.spec.side_two.id
  fail_if (not (is_some (acting_side m c.actor)) && not (privileged c.actor.role)) unauthorized
  fail_if (is_some (submission_by_id m.submissions c.submission_id)) already_exists
  (if is_awaiting_confirmation m.state
      then submit_second m c
      else ok (first_submission m c, submit_event m c match_result_submitted [] ∷ []))

-- `Match.SubmitResult`
unfoldable pub submit_result : Match → SubmitResultCommand → Result Error (Match × List DomainEvent)
unfolding submit_new
submit_result m c = once m c.command_id (submit_fingerprint c) (submit_new m c)
