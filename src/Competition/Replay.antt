-- ===== src/Competition/Replay.antt =====
-- A command takes effect at most once, whatever comes after it.
use go_book.Base.{
  Bool-cases, List, Option-cases, [], arith, inl, inr, none, refl, some, sym, true, ◌∙◌, ◌∷◌, ◌≡◌,
  ◌≢◌, ◌⊎◌,
}
use go_book.Base.Result.{Result, Result-cases, err, ok}
use go_book.Base.Text.{Text, eq_of_text_eq, text_eq, text_eq_iff, text_eq_refl}
use go_book.Competition.Confirm.{confirm_new, dispute_new, opposing_side}
use go_book.Competition.Errors.{Error, idempotency_conflict}
use go_book.Competition.Match.{
  DomainEvent, Match, check_command, lookup_command, once, pending_submission,
}
use go_book.Competition.Run.{
  Command, Reaches, at_once, command_id, confirm, correct, dispute, fingerprint, later, override,
  run, run-once, run_new, submit,
}
use go_book.Competition.Submit.{submit_new, submit_second}
use go_book.Competition.Types.{EntityId, valid_id}
use go_book.Competition.Verify.{correct_new, last_of, override_new}
use mathlib.Core.Path.{subst}

run_new-records :
    (m : Match) (c : Command) {n : Match} {events : List DomainEvent}
    → run_new m c ≡ ok (n, events)
    → n.commands ≡ (command_id c, fingerprint c) ∷ m.commands
unfolding submit_new submit_second confirm_new dispute_new override_new correct_new
run_new-records m (submit c) d = ground (arith, Option-cases (pending_submission m.submissions))
run_new-records m (confirm c) d =
    ground (arith, Result-cases (opposing_side m c.actor c.submission_id))
run_new-records m (dispute c) d =
    ground (arith, Result-cases (opposing_side m c.actor c.submission_id))
run_new-records m (override c) d = ground arith
run_new-records m (correct c) d = ground (arith, Option-cases (last_of m.verified_results))

-- How a command that succeeds came out.
abbrev Came :
    Match
    → EntityId
    → Text
    → Result Error (Match × List DomainEvent)
    → Match
    → List DomainEvent
    → Type 0
Came m id print new n events =
    (valid_id id ≡ true)
    × (((lookup_command id m.commands ≡ some print) × (n ≡ m) × (events ≡ []))
        ⊎ ((lookup_command id m.commands ≡ none) × (new ≡ ok (n, events))))

once-cases :
    (m : Match) (id : EntityId) (print : Text) (new : Result Error (Match × List DomainEvent))
    {n : Match} {events : List DomainEvent}
    → once m id print new ≡ ok (n, events)
    → Came m id print new n events
unfolding once check_command
once-cases m id print new d = elim (Option-cases (lookup_command id m.commands)) [
  | inl f ↦ ground arith
  | inr (p, f) ↦ ground (arith, text_eq_iff p print)
]

-- A command that succeeds was run before, or is run now for the first time.
pub run-cases :
    (m : Match) (c : Command) {n : Match} {events : List DomainEvent}
    → run m c ≡ ok (n, events)
    → Came m (command_id c) (fingerprint c) (run_new m c) n events
run-cases m c e = once-cases m (command_id c) (fingerprint c) (run_new m c) (sym (run-once m c) ∙ e)

-- An answered command is on record.
remembered :
    (m : Match) (c : Command) {n : Match} {events : List DomainEvent}
    → run m c ≡ ok (n, events)
    → lookup_command (command_id c) n.commands ≡ some (fingerprint c)
remembered m c e = elim (run-cases m c e).1 [
  | inl (before, same, _) ↦ rw same before
  | inr (_, new) ↦ rw (run_new-records m c new, text_eq_refl (command_id c)) refl
]

-- A record stays.
lasts :
    (id : EntityId) (print : Text) (m : Match) (c : Command) {n : Match} {events : List DomainEvent}
    → lookup_command id m.commands ≡ some print
    → run m c ≡ ok (n, events)
    → lookup_command id n.commands ≡ some print
lasts id print m c known e = elim (run-cases m c e).1 [
  | inl (_, same, _) ↦ rw same known
  | inr (unknown, new) ↦
      rw (run_new-records m c new) (elim (Bool-cases (text_eq id (command_id c))) [
        | inl f ↦
            let found =
              subst (λ (i : EntityId). lookup_command i m.commands ≡ some print)
                (eq_of_text_eq id (command_id c) f) known in
            cc
        | inr f ↦ rw f known
      ])
]

lasts_on :
    (id : EntityId) (print : Text) (m : Match) {n : Match}
    → lookup_command id m.commands ≡ some print
    → Reaches m n
    → lookup_command id n.commands ≡ some print
lasts_on id print m known at_once = known
lasts_on id print m known (later c r e) = lasts id print _ c (lasts_on id print m known r) e

-- A command that has succeeded once is answered with no event and no change at any later time, no
-- matter which commands came in between.
pub run_again :
    (m : Match) (c : Command) {n p : Match} {events : List DomainEvent}
    → run m c ≡ ok (n, events)
    → Reaches n p
    → run p c ≡ ok (p, [])
unfolding once check_command
run_again m c {n} {p} e r =
    let known = lasts_on (command_id c) (fingerprint c) n (remembered m c e) r in
    run-once p c ∙ rw ((run-cases m c e).0, known, text_eq_refl (fingerprint c)) refl

-- The ID of a command that has succeeded is never accepted again for a command that differs in what its
-- fingerprint shows.
pub run_conflicting :
    (m : Match) (c d : Command) {n p : Match} {events : List DomainEvent}
    → run m c ≡ ok (n, events)
    → Reaches n p
    → command_id d ≡ command_id c
    → fingerprint d ≢ fingerprint c
    → run p d ≡ err idempotency_conflict
unfolding once check_command
run_conflicting m c d {n} {p} e r same differs =
    let known = lasts_on (command_id c) (fingerprint c) n (remembered m c e) r in
    let found =
      subst (λ (i : EntityId). lookup_command i p.commands ≡ some (fingerprint c)) (sym same)
        known in
    let valid = subst (λ (i : EntityId). valid_id i ≡ true) (sym same) (run-cases m c e).0 in
    run-once p d ∙ elim (Bool-cases (text_eq (fingerprint c) (fingerprint d))) [
      | inl f ↦ absurd (differs (sym (eq_of_text_eq (fingerprint c) (fingerprint d) f)))
      | inr f ↦ rw (valid, found, f) refl
    ]
