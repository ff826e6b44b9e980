-- ===== src/Competition/Examples.antt =====
-- A match from its start to a corrected result, and the theorems at its states.
use go_book.Base.{List, [], arith, refl, some, ◌++◌, ◌∷◌, ◌≡◌, ◌≢◌, ◌⊎◌}
use go_book.Base.Result.{err, ok}
use go_book.Base.Text.{codes, is_blank, is_space, trim_left, trim_space}
use go_book.Competition.Confirm.{
  ConfirmResultCommand, confirm_fingerprint, confirm_new, confirm_result, opposing_side,
  verified_by_opponent,
}
use go_book.Competition.Confirmed.{IsConfirmed}
use go_book.Competition.Errors.{idempotency_conflict}
use go_book.Competition.Match.{
  DomainEvent, Match, VerifiedResult, acting_side, all_valid, check_command, check_side,
  has_confirmation, has_verification, is_submitter, new_match, once, pending, set_state_by_id,
  submission_by_id, validate_command, verified,
}
use go_book.Competition.Replay.{run_again, run_conflicting}
use go_book.Competition.Run.{Reaches, at_once, confirm, later, run, submit}
use go_book.Competition.Shapes.{IsSound}
use go_book.Competition.Sound.{Reaches-IsSound}
use go_book.Competition.Submit.{
  SubmitResultCommand, submission, submit_fingerprint, submit_new, submit_result, submit_second,
}
use go_book.Competition.Types.{
  Actor, MatchResult, MatchSpec, Team, admin, format_singles, member, participant_rule_for,
  side_win, tie, validate_match_result, validate_participant_counts,
}
use go_book.Competition.Verdict.{
  IsOverridden, IsOverride, Reaches-appends, admin_override_total, confirm_result-IsConfirmed,
}
use go_book.Competition.Verify.{AdminOverrideCommand, admin_override, last_of}

abbrev blue_team : Team
blue_team = record {
  id = codes "blue";
  event_id = codes "cup";
  name = codes "Blue";
  members = codes "ann" ∷ [];
  captain_ids = codes "ann" ∷ [];
}

abbrev red_team : Team
red_team = record {
  id = codes "red";
  event_id = codes "cup";
  name = codes "Red";
  members = codes "bob" ∷ [];
  captain_ids = codes "bob" ∷ [];
}

abbrev singles : MatchSpec
singles = record {
  id = codes "m";
  event_id = codes "cup";
  format = format_singles;
  side_one = record { id = codes "one"; team_id = codes "blue"; participants = codes "ann" ∷ [] };
  side_two = record { id = codes "two"; team_id = codes "red"; participants = codes "bob" ∷ [] };
  scheduled = 3;
}

abbrev blue_wins : MatchResult
blue_wins = record { outcome = side_win; winning_side_id = codes "one"; score = codes "2 & 1" }

abbrev halved : MatchResult
halved = record { outcome = tie; winning_side_id = []; score = [] }

abbrev ann : Actor
ann = record { user_id = codes "u1"; player_id = codes "ann"; role = member }

abbrev bob : Actor
bob = record { user_id = codes "u2"; player_id = codes "bob"; role = member }

abbrev boss : Actor
boss = record { user_id = codes "u3"; player_id = []; role = admin }

abbrev submission_of_ann : SubmitResultCommand
submission_of_ann = record {
  command_id = codes "c1";
  submission_id = codes "s1";
  actor = ann;
  result = blue_wins;
  occurred_at = 4;
}

abbrev confirmation_of_bob : ConfirmResultCommand
confirmation_of_bob = record {
  command_id = codes "c2";
  confirmation_id = codes "k1";
  verification_id = codes "v1";
  submission_id = codes "s1";
  actor = bob;
  occurred_at = 5;
}

abbrev verdict : AdminOverrideCommand
verdict = record {
  command_id = codes "c3";
  verification_id = codes "v2";
  actor = boss;
  result = halved;
  reason = codes "weather";
  occurred_at = 6;
}

started : (m : Match) × (new_match singles blue_team red_team ≡ ok m)
unfolding new_match participant_rule_for validate_participant_counts check_side is_blank trim_space
    trim_left is_space
started = (_, refl)

submitted : (n : Match × List DomainEvent) × (run started.0 (submit submission_of_ann) ≡ ok n)
unfolding started submit_result once check_command submit_new submit_second validate_command
    all_valid validate_match_result acting_side submission_by_id new_match participant_rule_for
    validate_participant_counts check_side is_blank trim_space trim_left is_space submit_fingerprint
submitted = (_, refl)

after_submit : Reaches started.0 submitted.0.0
after_submit = later (submit submission_of_ann) at_once submitted.1

confirmed_by_bob :
    (n : Match × List DomainEvent) × (confirm_result submitted.0.0 confirmation_of_bob ≡ ok n)
unfolding started submitted confirm_result once check_command confirm_new opposing_side
    validate_command all_valid acting_side submission_by_id set_state_by_id has_confirmation
    has_verification is_submitter is_blank trim_space trim_left is_space confirm_fingerprint
    submit_result submit_new submit_second validate_match_result new_match participant_rule_for
    validate_participant_counts check_side submit_fingerprint
confirmed_by_bob = (_, refl)

after_confirm : Reaches started.0 confirmed_by_bob.0.0
after_confirm = later (confirm confirmation_of_bob) after_submit confirmed_by_bob.1

Reaches-IsSound_example : IsSound confirmed_by_bob.0.0
Reaches-IsSound_example = Reaches-IsSound singles blue_team red_team started.1 after_confirm

run_again_example :
    run confirmed_by_bob.0.0 (submit submission_of_ann) ≡ ok (confirmed_by_bob.0.0, [])
run_again_example =
    run_again started.0 (submit submission_of_ann) submitted.1
      (later (confirm confirmation_of_bob) at_once confirmed_by_bob.1)

confirm_result-IsConfirmed_example :
    ((confirmed_by_bob.0.0 ≡ submitted.0.0) × (confirmed_by_bob.0.1 ≡ []))
    ⊎ IsConfirmed submitted.0.0 confirmation_of_bob confirmed_by_bob.0.0
confirm_result-IsConfirmed_example =
    confirm_result-IsConfirmed singles blue_team red_team confirmation_of_bob started.1 after_submit
      confirmed_by_bob.1

Reaches-appends_example :
    (more : List VerifiedResult) × (confirmed_by_bob.0.0.verified_results
      ≡ started.0.verified_results ++ more)
Reaches-appends_example = Reaches-appends started.0 after_confirm

submitted_unverified : submitted.0.0.state ≢ verified
unfolding submitted submit_result once check_command submit_new submit_second validate_command
    all_valid validate_match_result acting_side submission_by_id started new_match
    participant_rule_for validate_participant_counts check_side is_blank trim_space trim_left
    is_space submit_fingerprint
submitted_unverified e = cc

verdict-IsOverride : IsOverride submitted.0.0 verdict
unfolding submitted submit_result once check_command submit_new submit_second validate_command
    all_valid validate_match_result acting_side submission_by_id started new_match
    participant_rule_for validate_participant_counts check_side is_blank trim_space trim_left
    is_space submit_fingerprint
verdict-IsOverride = record {
  named = refl;
  unused = refl;
  actor_named = refl;
  by_admin = refl;
  has_time = refl;
  verification_named = refl;
  explained = refl;
  fits = refl;
}

admin_override_total_example :
    (n : Match) × (events : List DomainEvent) × (admin_override submitted.0.0 verdict
      ≡ ok (n, events))
    × IsOverridden submitted.0.0 verdict n
admin_override_total_example =
    admin_override_total singles blue_team red_team verdict started.1 after_submit
      submitted_unverified verdict-IsOverride

-- The same ID with another submission.
abbrev other_submission : SubmitResultCommand
other_submission = record submission_of_ann { submission_id = codes "s2" }

run_conflicting_example : run submitted.0.0 (submit other_submission) ≡ err idempotency_conflict
unfolding submit_fingerprint trim_space is_space
run_conflicting_example =
    run_conflicting started.0 (submit submission_of_ann) (submit other_submission) submitted.1
      at_once refl (λ e. ground arith)

confirmed_last :
    last_of confirmed_by_bob.0.0.verified_results
    ≡ some (
        verified_by_opponent confirmation_of_bob
          (record (submission submission_of_ann (codes "one") pending) { state = pending }))
unfolding confirmed_by_bob started submitted confirm_result once check_command confirm_new
    opposing_side validate_command all_valid acting_side submission_by_id set_state_by_id
    has_confirmation has_verification is_submitter is_blank trim_space trim_left is_space
    confirm_fingerprint submit_result submit_new submit_second validate_match_result new_match
    participant_rule_for validate_participant_counts check_side submit_fingerprint
confirmed_last = refl
