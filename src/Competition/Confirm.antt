-- ===== src/Competition/Confirm.antt =====
-- internal/competition/match.go, confirming and disputing a result.
use go_book.Base.{List, [], none, not, some, ◌++◌, ◌||◌, ◌∷◌}
use go_book.Base.Result.{Result, err, fail_if, ok, require, ◌>>=◌, ◌>>◌}
use go_book.Base.Text.{Text, codes, is_empty, text_eq, trim_space}
use go_book.Competition.Errors.{
  Error, already_exists, invalid_transition, not_found, not_opposing_side, own_submission,
  reason_required, unauthorized,
}
use go_book.Competition.Match.{
  DomainEvent, Match, ResultConfirmation, ResultSubmission, VerifiedResult, acting_side,
  by_opponent, confirmed, decision_confirmed, decision_disputed, disputed, fields, has_confirmation,
  has_verification, in_dispute, is_awaiting_confirmation, is_submitter, match_result_disputed,
  match_result_verified, once, set_state_by_id, submission_by_id, validate_command, verified,
}
use go_book.Competition.Types.{Actor, EntityId, valid_id}
use go_book.Events.Envelope.{Time}

pub record ConfirmResultCommand : Type 0 where
  pub command_id : EntityId
  pub confirmation_id : EntityId
  pub verification_id : EntityId
  pub submission_id : EntityId
  pub actor : Actor
  pub occurred_at : Time

pub record DisputeResultCommand : Type 0 where
  pub command_id : EntityId
  pub confirmation_id : EntityId
  pub submission_id : EntityId
  pub actor : Actor
  pub reason : Text
  pub occurred_at : Time

unfoldable pub confirm_fingerprint : ConfirmResultCommand → Text
confirm_fingerprint c =
    codes "confirm"
    ++ fields (c.confirmation_id ∷ c.verification_id ∷ c.submission_id ∷ c.actor.user_id ∷ [])

pub dispute_fingerprint : DisputeResultCommand → Text
dispute_fingerprint c =
    codes "dispute"
    ++ fields (c.confirmation_id ∷ c.submission_id ∷ c.actor.user_id ∷ trim_space c.reason ∷ [])

-- The guards that both commands share: the submission, and the side of an actor that may judge it.
unfoldable pub opposing_side : Match → Actor → EntityId → Result Error (ResultSubmission × EntityId)
opposing_side m actor id = elim (submission_by_id m.submissions id) [
  | none ↦ err not_found
  | some s ↦ fail_if (is_submitter actor s) own_submission >> elim (acting_side m actor) [
    | none ↦ err unauthorized
    | some side ↦
        fail_if (not (valid_id s.submitter_side) || text_eq side s.submitter_side) not_opposing_side
        >> ok (s, side)
  ]
]

abbrev confirmation : ConfirmResultCommand → ResultSubmission → EntityId → ResultConfirmation
confirmation c s side = record {
  id = c.confirmation_id;
  submission_id = s.id;
  actor_user_id = c.actor.user_id;
  actor_side_id = side;
  decision = decision_confirmed;
  reason = [];
  decided_at = c.occurred_at;
}

abbrev pub verified_by_opponent : ConfirmResultCommand → ResultSubmission → VerifiedResult
verified_by_opponent c s = record {
  id = c.verification_id;
  version = 1;
  result = s.result;
  method = by_opponent;
  actor_user_id = c.actor.user_id;
  reason = [];
  submission_id = s.id;
  supersedes_id = [];
  verified_at = c.occurred_at;
}

abbrev pub confirmed_match : Match → ConfirmResultCommand → ResultSubmission → EntityId → Match
confirmed_match m c s side = record m {
  confirmations = m.confirmations ++ (confirmation c s side ∷ []);
  submissions = set_state_by_id c.submission_id confirmed m.submissions;
  verified_results = m.verified_results ++ (verified_by_opponent c s ∷ []);
  state = verified;
  commands = (c.command_id, confirm_fingerprint c) ∷ m.commands;
}

abbrev confirm_event : Match → ConfirmResultCommand → ResultSubmission → DomainEvent
confirm_event m c s = record {
  kind = match_result_verified;
  match_id = m.spec.id;
  competition_event_id = m.spec.event_id;
  submission_id = s.id;
  verification_id = c.verification_id;
  previous_verification_id = [];
  actor_user_id = c.actor.user_id;
  result = s.result;
  reason = [];
  occurred_at = c.occurred_at;
}

unfoldable pub confirm_new : Match → ConfirmResultCommand → Result Error (Match × List DomainEvent)
confirm_new m c = do
  require (is_awaiting_confirmation m.state) invalid_transition
  validate_command c.actor c.occurred_at
      (c.confirmation_id ∷ c.verification_id ∷ c.submission_id ∷ [])
  judged ← opposing_side m c.actor c.submission_id
  fail_if
      (has_confirmation m.confirmations c.confirmation_id
        || has_verification m.verified_results c.verification_id)
      already_exists
  ok (confirmed_match m c judged.0 judged.1, confirm_event m c judged.0 ∷ [])

-- `Match.ConfirmResult`
unfoldable pub confirm_result :
    Match → ConfirmResultCommand → Result Error (Match × List DomainEvent)
unfolding confirm_new
confirm_result m c = once m c.command_id (confirm_fingerprint c) (confirm_new m c)

abbrev objection : DisputeResultCommand → ResultSubmission → EntityId → ResultConfirmation
objection c s side = record {
  id = c.confirmation_id;
  submission_id = s.id;
  actor_user_id = c.actor.user_id;
  actor_side_id = side;
  decision = decision_disputed;
  reason = trim_space c.reason;
  decided_at = c.occurred_at;
}

abbrev pub disputed_match : Match → DisputeResultCommand → ResultSubmission → EntityId → Match
disputed_match m c s side = record m {
  confirmations = m.confirmations ++ (objection c s side ∷ []);
  submissions = set_state_by_id c.submission_id in_dispute m.submissions;
  state = disputed;
  commands = (c.command_id, dispute_fingerprint c) ∷ m.commands;
}

abbrev dispute_event : Match → DisputeResultCommand → ResultSubmission → DomainEvent
dispute_event m c s = record {
  kind = match_result_disputed;
  match_id = m.spec.id;
  competition_event_id = m.spec.event_id;
  submission_id = s.id;
  verification_id = [];
  previous_verification_id = [];
  actor_user_id = c.actor.user_id;
  result = s.result;
  reason = trim_space c.reason;
  occurred_at = c.occurred_at;
}

unfoldable pub dispute_new : Match → DisputeResultCommand → Result Error (Match × List DomainEvent)
dispute_new m c = do
  require (is_awaiting_confirmation m.state) invalid_transition
  validate_command c.actor c.occurred_at (c.confirmation_id ∷ c.submission_id ∷ [])
  fail_if (is_empty (trim_space c.reason)) reason_required
  judged ← opposing_side m c.actor c.submission_id
  fail_if (has_confirmation m.confirmations c.confirmation_id) already_exists
  ok (disputed_match m c judged.0 judged.1, dispute_event m c judged.0 ∷ [])

-- `Match.DisputeResult`
unfoldable pub dispute_result :
    Match → DisputeResultCommand → Result Error (Match × List DomainEvent)
unfolding dispute_new
dispute_result m c = once m c.command_id (dispute_fingerprint c) (dispute_new m c)
