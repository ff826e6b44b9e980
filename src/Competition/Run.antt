-- ===== src/Competition/Run.antt =====
-- The commands on a match, and the states that they reach one after the other.
use go_book.Base.{List, refl, ◌≡◌}
use go_book.Base.Result.{Result, ok}
use go_book.Base.Text.{Text}
use go_book.Competition.Confirm.{
  ConfirmResultCommand, DisputeResultCommand, confirm_fingerprint, confirm_new, confirm_result,
  dispute_fingerprint, dispute_new, dispute_result,
}
use go_book.Competition.Errors.{Error}
use go_book.Competition.Match.{DomainEvent, Match, once}
use go_book.Competition.Submit.{SubmitResultCommand, submit_fingerprint, submit_new, submit_result}
use go_book.Competition.Types.{EntityId}
use go_book.Competition.Verify.{
  AdminOverrideCommand, CorrectResultCommand, admin_override, correct_fingerprint, correct_new,
  correct_result, override_fingerprint, override_new,
}

pub data Command : Type 0 where
  submit : SubmitResultCommand → Command
  confirm : ConfirmResultCommand → Command
  dispute : DisputeResultCommand → Command
  override : AdminOverrideCommand → Command
  correct : CorrectResultCommand → Command

abbrev pub run : Match → Command → Result Error (Match × List DomainEvent)
run m (submit c) = submit_result m c
run m (confirm c) = confirm_result m c
run m (dispute c) = dispute_result m c
run m (override c) = admin_override m c
run m (correct c) = correct_result m c

abbrev pub command_id : Command → EntityId
command_id (submit c) = c.command_id
command_id (confirm c) = c.command_id
command_id (dispute c) = c.command_id
command_id (override c) = c.command_id
command_id (correct c) = c.command_id

abbrev pub fingerprint : Command → Text
fingerprint (submit c) = submit_fingerprint c
fingerprint (confirm c) = confirm_fingerprint c
fingerprint (dispute c) = dispute_fingerprint c
fingerprint (override c) = override_fingerprint c
fingerprint (correct c) = correct_fingerprint c

-- What a command does that was not run before.
abbrev pub run_new : Match → Command → Result Error (Match × List DomainEvent)
run_new m (submit c) = submit_new m c
run_new m (confirm c) = confirm_new m c
run_new m (dispute c) = dispute_new m c
run_new m (override c) = override_new m c
run_new m (correct c) = correct_new m c

pub run-once :
    (m : Match) (c : Command) → run m c ≡ once m (command_id c) (fingerprint c) (run_new m c)
unfolding submit_result confirm_result dispute_result admin_override correct_result
run-once m (submit c) = refl
run-once m (confirm c) = refl
run-once m (dispute c) = refl
run-once m (override c) = refl
run-once m (correct c) = refl

-- The states that a run of commands reaches from `start`.
pub data Reaches (start : Match) : Match → Type 0 where
  at_once : Reaches start start
  later :
      {m n : Match} (c : Command) {events : List DomainEvent}
      → Reaches start m
      → run m c ≡ ok (n, events)
      → Reaches start n
