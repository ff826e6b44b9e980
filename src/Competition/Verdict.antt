-- ===== src/Competition/Verdict.antt =====
-- Who decides on a result, and that a decision is never rewritten and never out of reach.
use go_book.Base.{
  List, [], ap, arith, false, inl, inr, length, none, refl, some, sym, true, ◌++◌, ◌∙◌, ◌∷◌, ◌≡◌,
  ◌≢◌, ◌⊎◌,
}
use go_book.Base.Result.{ok}
use go_book.Base.Text.{is_empty, trim_space}
use go_book.Betting.Settle.{nothing}
use go_book.Competition.Chain.{Follows-length}
use go_book.Competition.Confirm.{ConfirmResultCommand, confirm_result, verified_by_opponent}
use go_book.Competition.Confirmed.{IsConfirmed, confirm_new-IsConfirmed}
use go_book.Competition.Inverted.{
  FitsMatch, confirm_new-inv, correct_new-inv, dispute_new-inv, override_new-inv, submit_new-inv,
}
use go_book.Competition.Match.{
  DomainEvent, Match, MatchState, VerifiedResult, all_valid, awaiting_confirmation, awaiting_result,
  by_override, check_command, disputed, has_verification, lookup_command, new_match, once,
  validate_command, verified,
}
use go_book.Competition.Replay.{run-cases}
use go_book.Competition.Run.{
  Command, Reaches, at_once, confirm, correct, dispute, later, override, run_new, submit,
}
use go_book.Competition.Sound.{Reaches-IsSound, nothing_yet}
use go_book.Competition.Types.{
  MatchSpec, Role, Team, admin, is_role, member, other_role, owner, privileged, valid_id,
}
use go_book.Competition.Verify.{
  AdminOverrideCommand, admin_override, check_verdict, correction, is_open, last_of,
  overridden_match, override_event, override_new, overriding,
}
use go_book.Events.Envelope.{is_zero}
use mathlib.Core.List.{append-nil, append_assoc}

run_new-appends :
    (m : Match) (c : Command) {n : Match} {events : List DomainEvent}
    → run_new m c ≡ ok (n, events)
    → (more : List VerifiedResult) × (n.verified_results ≡ m.verified_results ++ more)
run_new-appends m (submit c) e = elim (submit_new-inv m c e).1 [
  | inl (_, now) ↦ ([], ap (λ (x : Match). x.verified_results) now ∙ sym (append-nil _))
  | inr (_, _, now) ↦ ([], ap (λ (x : Match). x.verified_results) now ∙ sym (append-nil _))
]
run_new-appends m (confirm c) e =
    let (_, (s, side, _, now), _) = confirm_new-inv m c e in
    (verified_by_opponent c s ∷ [], ap (λ (x : Match). x.verified_results) now)
run_new-appends m (dispute c) e =
    let (_, (s, side, _, now), _) = dispute_new-inv m c e in
    ([], ap (λ (x : Match). x.verified_results) now ∙ sym (append-nil _))
run_new-appends m (override c) e =
    let (_, now, _) = override_new-inv m c e in
    (overriding c ∷ [], ap (λ (x : Match). x.verified_results) now)
run_new-appends m (correct c) e =
    let (_, (previous, _, _, now), _) = correct_new-inv m c e in
    (correction c previous ∷ [], ap (λ (x : Match). x.verified_results) now)

-- A verified result is never changed or taken away: what later states list begins with what was listed.
pub Reaches-appends :
    (m : Match) {n : Match}
    → Reaches m n
    → (more : List VerifiedResult) × (n.verified_results ≡ m.verified_results ++ more)
Reaches-appends m at_once = ([], sym (append-nil _))
Reaches-appends m (later {m = p} c r e) =
    let (before, known) = Reaches-appends m r in
    elim (run-cases p c e).1 [
      | inl (_, same, _) ↦ (before, ap (λ (x : Match). x.verified_results) same ∙ known)
      | inr (_, new) ↦
          let (more, appended) = run_new-appends p c new in
          (
            before ++ more,
            appended
                ∙ ap (λ (vs : List VerifiedResult). vs ++ more) known
                ∙ append_assoc m.verified_results before more,
          )
    ]

-- In every state that a new match reaches, the last verified result has the number of results as its
-- version.
last_version-length :
    (spec : MatchSpec) (one two : Team) {m n : Match} {last : VerifiedResult}
    → new_match spec one two ≡ ok m
    → Reaches m n
    → last_of n.verified_results ≡ some last
    → last.version ≡ length n.verified_results
last_version-length spec one two {m} {n} made r e =
    let count =
      Follows-length [] 0 n.verified_results (Reaches-IsSound spec one two made r).chain e in
    omega (arith, count)

-- A confirmation that succeeds in a state that a new match reaches repeats an earlier one and changes
-- nothing, or it verifies the only submission, with the result that was submitted, on the word of an
-- actor who is another user and another player than the submitter, and who plays for the other side or
-- is a captain of it.
pub confirm_result-IsConfirmed :
    (spec : MatchSpec) (one two : Team) (c : ConfirmResultCommand) {start m n : Match}
    {events : List DomainEvent}
    → new_match spec one two ≡ ok start
    → Reaches start m
    → confirm_result m c ≡ ok (n, events)
    → ((n ≡ m) × (events ≡ [])) ⊎ IsConfirmed m c n
confirm_result-IsConfirmed spec one two c {start} {m} made r e =
    elim (run-cases m (confirm c) e).1 [
      | inl (_, same, silent) ↦ inl (same, silent)
      | inr (_, new) ↦ inr (confirm_new-IsConfirmed m c (Reaches-IsSound spec one two made r) new)
    ]

-- The command that `AdminOverride` needs.
pub record IsOverride (m : Match) (c : AdminOverrideCommand) : Type 0 where
  pub named : valid_id c.command_id ≡ true
  pub unused : lookup_command c.command_id m.commands ≡ none
  pub actor_named : valid_id c.actor.user_id ≡ true
  pub by_admin : privileged c.actor.role ≡ true
  pub has_time : is_zero c.occurred_at ≡ false
  pub verification_named : valid_id c.verification_id ≡ true
  pub explained : is_empty (trim_space c.reason) ≡ false
  pub fits : FitsMatch m c.result

still_open : (state : MatchState) → state ≢ verified → is_open state ≡ true
still_open awaiting_result n = refl
still_open awaiting_confirmation n = refl
still_open disputed n = refl
still_open verified n = absurd (n refl)

admin_role : (role : Role) → privileged role ≡ true → is_role role ≡ true
admin_role member h = refl
admin_role admin h = refl
admin_role owner h = refl
admin_role (other_role _) h = cc

-- What an override settles.
pub record IsOverridden (m : Match) (c : AdminOverrideCommand) (n : Match) : Type 0 where
  pub same_match : (n.spec ≡ m.spec) × (n.confirmations ≡ m.confirmations)
  pub now_verified : n.state ≡ verified
  pub verdict : VerifiedResult
  pub only_verdict : n.verified_results ≡ verdict ∷ []
  pub named : (verdict.id ≡ c.verification_id) × (verdict.version ≡ 1)
  pub as_decided :
      (verdict.result.outcome ≡ c.result.outcome)
      × (verdict.result.winning_side_id ≡ c.result.winning_side_id)
      × (verdict.result.score ≡ trim_space c.result.score)
  pub on_the_word :
      (verdict.method ≡ by_override)
      × (verdict.actor_user_id ≡ c.actor.user_id)
      × (verdict.reason ≡ trim_space c.reason)

overridden_match-IsOverridden :
    (m : Match) (c : AdminOverrideCommand)
    → m.verified_results ≡ []
    → IsOverridden m c (overridden_match m c)
overridden_match-IsOverridden m c nothing = record {
  same_match = (refl, refl);
  now_verified = refl;
  verdict = overriding c;
  only_verdict = ap (λ (vs : List VerifiedResult). vs ++ overriding c ∷ []) nothing;
  named = (refl, refl);
  as_decided = (refl, refl, refl);
  on_the_word = (refl, refl, refl);
}

-- No match is stuck: in every state that a new match reaches and in which nothing is verified yet, an
-- administrator with a reason and a result that fits settles it: the match is then verified, with this
-- result as the only one, on the word of the administrator.
pub admin_override_total :
    (spec : MatchSpec) (one two : Team) (c : AdminOverrideCommand) {start m : Match}
    → new_match spec one two ≡ ok start
    → Reaches start m
    → m.state ≢ verified
    → IsOverride m c
    → (n : Match) × (events : List DomainEvent) × (admin_override m c ≡ ok (n, events))
      × IsOverridden m c n
unfolding admin_override override_new once check_command check_verdict validate_command all_valid
    has_verification
admin_override_total spec one two c {start} {m} made r n d =
    let nothing = nothing_yet m (Reaches-IsSound spec one two made r) n in
    let unused : has_verification m.verified_results c.verification_id ≡ false = rw nothing refl in
    (
      overridden_match m c,
      override_event m c ∷ [],
      rw
          (
            d.named,
            d.unused,
            still_open m.state n,
            d.actor_named,
            admin_role c.actor.role d.by_admin,
            d.has_time,
            d.verification_named,
            d.by_admin,
            d.explained,
            d.fits,
            unused,
          )
          refl,
      overridden_match-IsOverridden m c nothing,
    )
