-- ===== src/Competition/Confirmed.antt =====
-- What a confirmation settles, and on whose word.
use go_book.Base.{List, [], ap, arith, false, refl, some, sym, true, ◌++◌, ◌∙◌, ◌∷◌, ◌≡◌, ◌≢◌, ◌⊎◌}
use go_book.Base.Result.{ok}
use go_book.Base.Text.{text_eq_iff}
use go_book.Betting.Settle.{nothing}
use go_book.Competition.Confirm.{ConfirmResultCommand, confirm_new, verified_by_opponent}
use go_book.Competition.Inverted.{confirm_new-inv}
use go_book.Competition.Match.{
  DomainEvent, Match, ResultSubmission, VerifiedResult, acting_side, by_opponent, confirmed,
  is_submitter, submission_by_id, verified,
}
use go_book.Competition.Shapes.{IsSound, judged_one}
use go_book.Competition.Sound.{waiting}
use go_book.Competition.Types.{Actor, EntityId, has, valid_id}
use mathlib.Core.Path.{subst}

-- A player or a captain of the side.
abbrev StandsOn : Match → Actor → EntityId → Type 0
StandsOn m actor side =
    ((side ≡ m.spec.side_one.id)
      × ((has m.spec.side_one.participants actor.player_id ≡ true)
          ⊎ (has m.team_one.captain_ids actor.player_id ≡ true)))
    ⊎ ((side ≡ m.spec.side_two.id)
        × ((has m.spec.side_two.participants actor.player_id ≡ true)
            ⊎ (has m.team_two.captain_ids actor.player_id ≡ true)))

acting_side-StandsOn :
    (m : Match) (actor : Actor) (side : EntityId)
    → acting_side m actor ≡ some side
    → StandsOn m actor side
unfolding acting_side
acting_side-StandsOn m actor side h = ground arith

someone_else :
    (actor : Actor) (s : ResultSubmission)
    → is_submitter actor s ≡ false
    → (actor.user_id ≢ s.submitter_user)
      × ((valid_id actor.player_id ≡ false) ⊎ (actor.player_id ≢ s.submitter_player))
unfolding is_submitter
someone_else actor s h = ground (
  arith,
  text_eq_iff actor.user_id s.submitter_user,
  text_eq_iff actor.player_id s.submitter_player,
)

-- What a confirmation settles.
pub record IsConfirmed (m : Match) (c : ConfirmResultCommand) (n : Match) : Type 0 where
  pub submission : ResultSubmission
  pub side : EntityId
  pub only_one : m.submissions ≡ submission ∷ []
  pub another_user : c.actor.user_id ≢ submission.submitter_user
  pub another_player :
      (valid_id c.actor.player_id ≡ false) ⊎ (c.actor.player_id ≢ submission.submitter_player)
  pub of_side : StandsOn m c.actor side
  pub against : side ≢ submission.submitter_side
  pub now_verified : n.state ≡ verified
  pub verdict : VerifiedResult
  pub only_verdict : n.verified_results ≡ verdict ∷ []
  pub as_submitted : (verdict.result ≡ submission.result) × (verdict.submission_id ≡ submission.id)
  pub on_the_word : (verdict.method ≡ by_opponent) × (verdict.actor_user_id ≡ c.actor.user_id)

pub confirm_new-IsConfirmed :
    (m : Match) (c : ConfirmResultCommand) {n : Match} {events : List DomainEvent}
    → IsSound m
    → confirm_new m c ≡ ok (n, events)
    → IsConfirmed m c n
confirm_new-IsConfirmed m c k e =
    let (was, (s, side, judge, now), unused) = confirm_new-inv m c e in
    let ((q, one, state_is), nothing) = waiting m k was in
    let (same, closed) =
      judged_one c.submission_id confirmed q
        (subst (λ (ss : List ResultSubmission). submission_by_id ss c.submission_id ≡ some s) one
          judge.found)
        refl in
    record {
      submission = s;
      side = side;
      only_one = one ∙ ap (λ (x : ResultSubmission). x ∷ []) (sym same);
      another_user = (someone_else c.actor s judge.someone_else).0;
      another_player = (someone_else c.actor s judge.someone_else).1;
      of_side = acting_side-StandsOn m c.actor side judge.takes_side;
      against = judge.opposes;
      now_verified = ap (λ (x : Match). x.state) now;
      verdict = verified_by_opponent c s;
      as_submitted = (refl, refl);
      on_the_word = (refl, refl);
      only_verdict =
          ap (λ (x : Match). x.verified_results) now
          ∙ ap (λ (vs : List VerifiedResult). vs ++ verified_by_opponent c s ∷ []) nothing;
    }
