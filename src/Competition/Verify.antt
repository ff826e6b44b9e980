-- ===== src/Competition/Verify.antt =====
-- internal/competition/match.go, an administrator's override and correction.
use go_book.Base.{Bool, List, Option, [], false, if◌then◌else◌, none, some, suc, true, ◌++◌, ◌∷◌}
use go_book.Base.Result.{Result, err, fail_if, ok, require, ◌>>◌}
use go_book.Base.Text.{Text, codes, is_empty, trim_space}
use go_book.Competition.Errors.{
  Error, already_exists, invalid_transition, panic, reason_required, result_unchanged, unauthorized,
}
use go_book.Competition.Match.{
  DomainEvent, Match, MatchState, ResultSubmission, VerifiedResult, by_correction, by_override,
  fields, has_verification, is_pending, match_result_corrected, match_result_verified, once,
  superseded, validate_command, verified,
}
use go_book.Competition.Types.{
  Actor, EntityId, MatchResult, normalized, outcome_text, privileged, results_equal,
  validate_match_result,
}
use go_book.Events.Envelope.{Time}

pub record AdminOverrideCommand : Type 0 where
  pub command_id : EntityId
  pub verification_id : EntityId
  pub actor : Actor
  pub result : MatchResult
  pub reason : Text
  pub occurred_at : Time

pub record CorrectResultCommand : Type 0 where
  pub command_id : EntityId
  pub verification_id : EntityId
  pub actor : Actor
  pub result : MatchResult
  pub reason : Text
  pub occurred_at : Time

abbrev verdict_fields : EntityId → EntityId → MatchResult → Text → Text
verdict_fields verification_id user_id result reason = fields (
    verification_id
    ∷ user_id
    ∷ outcome_text result.outcome
    ∷ result.winning_side_id
    ∷ trim_space result.score
    ∷ reason
    ∷ [])

pub override_fingerprint : AdminOverrideCommand → Text
override_fingerprint c =
    codes "override"
    ++ verdict_fields c.verification_id c.actor.user_id c.result (trim_space c.reason)

pub correct_fingerprint : CorrectResultCommand → Text
correct_fingerprint c =
    codes "correct"
    ++ verdict_fields c.verification_id c.actor.user_id c.result (trim_space c.reason)

abbrev pub is_open : MatchState → Bool
is_open verified = false
is_open _ = true

abbrev is_verified : MatchState → Bool
is_verified verified = true
is_verified _ = false

-- The guards on an administrator's verdict.
unfoldable pub check_verdict :
    Match → EntityId → Actor → MatchResult → Text → Time → Result Error (Unit {0})
check_verdict m verification_id actor result reason at = do
  validate_command actor at (verification_id ∷ [])
  require (privileged actor.role) unauthorized
  fail_if (is_empty (trim_space reason)) reason_required
  validate_match_result result m.spec.side_one.id m.spec.side_two.id
  fail_if (has_verification m.verified_results verification_id) already_exists

-- The loop over the pending submissions.
unfoldable pub supersede_pending : List ResultSubmission → List ResultSubmission
supersede_pending [] = []
supersede_pending (s ∷ ss) =
    (if is_pending s.state then record s { state = superseded } else s) ∷ supersede_pending ss

abbrev pub overriding : AdminOverrideCommand → VerifiedResult
overriding c = record {
  id = c.verification_id;
  version = 1;
  result = normalized c.result;
  method = by_override;
  actor_user_id = c.actor.user_id;
  reason = trim_space c.reason;
  submission_id = [];
  supersedes_id = [];
  verified_at = c.occurred_at;
}

abbrev pub overridden_match : Match → AdminOverrideCommand → Match
overridden_match m c = record m {
  submissions = supersede_pending m.submissions;
  verified_results = m.verified_results ++ (overriding c ∷ []);
  state = verified;
  commands = (c.command_id, override_fingerprint c) ∷ m.commands;
}

abbrev pub override_event : Match → AdminOverrideCommand → DomainEvent
override_event m c = record {
  kind = match_result_verified;
  match_id = m.spec.id;
  competition_event_id = m.spec.event_id;
  submission_id = [];
  verification_id = c.verification_id;
  previous_verification_id = [];
  actor_user_id = c.actor.user_id;
  result = normalized c.result;
  reason = trim_space c.reason;
  occurred_at = c.occurred_at;
}

unfoldable pub override_new : Match → AdminOverrideCommand → Result Error (Match × List DomainEvent)
override_new m c = do
  require (is_open m.state) invalid_transition
  check_verdict m c.verification_id c.actor c.result c.reason c.occurred_at
  ok (overridden_match m c, override_event m c ∷ [])

-- `Match.AdminOverride`
unfoldable pub admin_override :
    Match → AdminOverrideCommand → Result Error (Match × List DomainEvent)
unfolding override_new
admin_override m c = once m c.command_id (override_fingerprint c) (override_new m c)

abbrev pub correction : CorrectResultCommand → VerifiedResult → VerifiedResult
correction c previous = record {
  id = c.verification_id;
  version = suc previous.version;
  result = normalized c.result;
  method = by_correction;
  actor_user_id = c.actor.user_id;
  reason = trim_space c.reason;
  submission_id = [];
  supersedes_id = previous.id;
  verified_at = c.occurred_at;
}

abbrev pub corrected_match : Match → CorrectResultCommand → VerifiedResult → Match
corrected_match m c previous = record m {
  verified_results = m.verified_results ++ (correction c previous ∷ []);
  commands = (c.command_id, correct_fingerprint c) ∷ m.commands;
}

abbrev correct_event : Match → CorrectResultCommand → VerifiedResult → DomainEvent
correct_event m c previous = record {
  kind = match_result_corrected;
  match_id = m.spec.id;
  competition_event_id = m.spec.event_id;
  submission_id = [];
  verification_id = c.verification_id;
  previous_verification_id = previous.id;
  actor_user_id = c.actor.user_id;
  result = normalized c.result;
  reason = trim_space c.reason;
  occurred_at = c.occurred_at;
}

-- The last element; the source indexes at the length less one and panics on an empty list.
abbrev pub last_of : List VerifiedResult → Option VerifiedResult
last_of [] = none
last_of (v ∷ []) = some v
last_of (_ ∷ w ∷ vs) = last_of (w ∷ vs)

-- What a command does: it fails, panics or returns the next state with its events.
unfoldable pub correct_new : Match → CorrectResultCommand → Result Error (Match × List DomainEvent)
correct_new m c = do
  require (is_verified m.state) invalid_transition
  check_verdict m c.verification_id c.actor c.result c.reason c.occurred_at
  elim (last_of m.verified_results) [
    | none ↦ err panic
    | some previous ↦
        fail_if (results_equal previous.result (normalized c.result)) result_unchanged
        >> ok (corrected_match m c previous, correct_event m c previous ∷ [])
  ]

-- `Match.CorrectResult`
unfoldable pub correct_result :
    Match → CorrectResultCommand → Result Error (Match × List DomainEvent)
unfolding correct_new
correct_result m c = once m c.command_id (correct_fingerprint c) (correct_new m c)
