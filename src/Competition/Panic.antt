-- ===== src/Competition/Panic.antt =====
-- No command panics: the last verified result is there when a correction reads it.
use go_book.Base.{List, Option-cases, [], arith, inl, inr, none, sym, ◌∙◌, ◌∷◌, ◌≡◌, ◌≢◌}
use go_book.Base.Result.{Result, Result-cases, err, ok}
use go_book.Base.Text.{Text}
use go_book.Competition.Confirm.{confirm_new, dispute_new, opposing_side}
use go_book.Competition.Errors.{Error, panic}
use go_book.Competition.Match.{
  DomainEvent, Match, MatchState, acting_side, check_command, lookup_command, new_match, once,
  pending_submission, submission_by_id, validate_command, verified,
}
use go_book.Competition.Run.{
  Command, Reaches, command_id, confirm, correct, dispute, fingerprint, override, run, run-once,
  run_new, submit,
}
use go_book.Competition.Shapes.{IsSound, Shape}
use go_book.Competition.Sound.{Reaches-IsSound}
use go_book.Competition.Submit.{submit_new, submit_second}
use go_book.Competition.Types.{
  Actor, EntityId, MatchResult, MatchSpec, ResultOutcome, Team, other_outcome, side_win, tie,
  validate_match_result,
}
use go_book.Competition.Verify.{check_verdict, correct_new, last_of, override_new}
use go_book.Events.Envelope.{Time}
use mathlib.Core.Path.{subst}

once_no_panic :
    (m : Match) (id : EntityId) (print : Text) (new : Result Error (Match × List DomainEvent))
    → once m id print new ≡ err panic
    → new ≡ err panic
unfolding once check_command
once_no_panic m id print new e = elim (Option-cases (lookup_command id m.commands)) [
  | inl f ↦ ground arith
  | inr (p, f) ↦ ground arith
]

validate_command_no_panic :
    (actor : Actor) (at : Time) (ids : List EntityId) → validate_command actor at ids ≢ err panic
unfolding validate_command
validate_command_no_panic actor at ids e = ground arith

validate_match_result_no_panic :
    (r : MatchResult) (one two : EntityId) → validate_match_result r one two ≢ err panic
unfolding validate_match_result
validate_match_result_no_panic r one two e = by_outcome r.outcome e
  where
    by_outcome :
        (o : ResultOutcome) → validate_match_result (record r { outcome = o }) one two ≢ err panic
    by_outcome side_win e = ground arith
    by_outcome tie e = ground arith
    by_outcome (other_outcome s) e = cc

check_verdict_no_panic :
    (m : Match) (id : EntityId) (actor : Actor) (result : MatchResult) (reason : Text) (at : Time)
    → check_verdict m id actor result reason at ≢ err panic
unfolding check_verdict
check_verdict_no_panic m id actor result reason at e =
    let v = validate_command_no_panic actor at (id ∷ []) in
    let r = validate_match_result_no_panic result m.spec.side_one.id m.spec.side_two.id in
    ground arith

opposing_side_no_panic :
    (m : Match) (actor : Actor) (id : EntityId) → opposing_side m actor id ≢ err panic
unfolding opposing_side
opposing_side_no_panic m actor id e = elim (Option-cases (submission_by_id m.submissions id)) [
  | inl f ↦ ground arith
  | inr (s, f) ↦ ground (arith, Option-cases (acting_side m actor))
]

has_last : (m : Match) → IsSound m → m.state ≡ verified → last_of m.verified_results ≢ none
has_last m k was e =
    let shape =
      subst (λ (st : MatchState). Shape st m.submissions m.verified_results) was k.shape in
    let last = shape.1.1 in cc

run_new_no_panic : (m : Match) (c : Command) → IsSound m → run_new m c ≢ err panic
unfolding submit_new submit_second confirm_new dispute_new override_new correct_new
run_new_no_panic m (submit c) k e =
    let v = validate_command_no_panic c.actor c.occurred_at (c.submission_id ∷ []) in
    let r = validate_match_result_no_panic c.result m.spec.side_one.id m.spec.side_two.id in
    ground (arith, Option-cases (pending_submission m.submissions))
run_new_no_panic m (confirm c) k e =
    let v =
      validate_command_no_panic c.actor c.occurred_at
        (c.confirmation_id ∷ c.verification_id ∷ c.submission_id ∷ []) in
    let o = opposing_side_no_panic m c.actor c.submission_id in
    ground (arith, Result-cases (opposing_side m c.actor c.submission_id))
run_new_no_panic m (dispute c) k e =
    let v =
      validate_command_no_panic c.actor c.occurred_at (c.confirmation_id ∷ c.submission_id ∷ []) in
    let o = opposing_side_no_panic m c.actor c.submission_id in
    ground (arith, Result-cases (opposing_side m c.actor c.submission_id))
run_new_no_panic m (override c) k e =
    let v = check_verdict_no_panic m c.verification_id c.actor c.result c.reason c.occurred_at in
    ground arith
run_new_no_panic m (correct c) k e =
    let v = check_verdict_no_panic m c.verification_id c.actor c.result c.reason c.occurred_at in
    ground (arith, Option-cases (last_of m.verified_results), has_last m k)

-- The index of the last verified result is never out of range in a state that a new match reaches.
run_no_panic :
    (spec : MatchSpec) (one two : Team) (c : Command) {start m : Match}
    → new_match spec one two ≡ ok start
    → Reaches start m
    → run m c ≢ err panic
run_no_panic spec one two c {start} {m} made r e =
    run_new_no_panic m c (Reaches-IsSound spec one two made r)
      (once_no_panic m (command_id c) (fingerprint c) (run_new m c) (sym (run-once m c) ∙ e))
