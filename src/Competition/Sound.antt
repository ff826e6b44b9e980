-- ===== src/Competition/Sound.antt =====
-- Every command keeps a match sound, so that every state it reaches is.
use go_book.Base.{All, All-append, List, [], ap, inl, inr, refl, some, sym, ◌++◌, ◌∷◌, ◌≡◌, ◌≢◌}
use go_book.Base.Result.{ok}
use go_book.Betting.Settle.{nothing}
use go_book.Competition.Chain.{Follows-append, Follows-first, Fresh-append}
use go_book.Competition.Confirm.{
  ConfirmResultCommand, DisputeResultCommand, confirm_new, dispute_new, verified_by_opponent,
}
use go_book.Competition.Inverted.{
  FitsMatch, confirm_new-inv, correct_new-inv, dispute_new-inv, override_new-inv, submit_new-inv,
}
use go_book.Competition.Match.{
  DomainEvent, Match, MatchState, ResultSubmission, VerifiedResult, acting_side,
  awaiting_confirmation, confirmed, dispute_pending, in_dispute, new_match, pending,
  set_state_by_id, submission_by_id, verified,
}
use go_book.Competition.Replay.{run-cases}
use go_book.Competition.Run.{
  Command, Reaches, at_once, confirm, correct, dispute, later, override, run, run_new, submit,
}
use go_book.Competition.Shapes.{
  IsSound, NotPending, Shape, dispute-fit, dispute_one, judged-fit, judged_one, last_of-append,
  new_match-IsSound, normalized-fits, supersede-NotPending, supersede-fit, unverified,
}
use go_book.Competition.Submit.{SubmitResultCommand, side_id, submission, submit_new}
use go_book.Competition.Types.{MatchSpec, Team}
use go_book.Competition.Verify.{
  AdminOverrideCommand, CorrectResultCommand, correct_new, correction, override_new, overriding,
}
use mathlib.Core.Path.{subst}

module _ (m : Match) (k : IsSound m) where
  -- While a result waits for its confirmation it is the only one, and nothing is verified.
  pub waiting :
      m.state ≡ awaiting_confirmation
      → ((s : ResultSubmission) × (m.submissions ≡ s ∷ []) × (s.state ≡ pending))
        × (m.verified_results ≡ [])
  waiting e = subst (λ (st : MatchState). Shape st m.submissions m.verified_results) e k.shape

  submitted-IsSound :
      (c : SubmitResultCommand) {n : Match} {events : List DomainEvent}
      → submit_new m c ≡ ok (n, events)
      → IsSound n
  submitted-IsSound c {n} e = elim (submit_new-inv m c e).1 [
    | inl (was, now) ↦
        let empty =
          subst (λ (st : MatchState). Shape st m.submissions m.verified_results) was k.shape in
        subst IsSound (sym now) (record {
          shape = (
            (
              submission c (side_id (acting_side m c.actor)) pending,
              ap
                  (λ (ss : List ResultSubmission).
                    ss ++ submission c (side_id (acting_side m c.actor)) pending ∷ [])
                  empty.0,
              refl,
            ),
            empty.1,
          );
          chain = k.chain;
          fresh = k.fresh;
          submissions_fit =
              All-append (λ (s : ResultSubmission). FitsMatch m s.result) m.submissions
                (submission c (side_id (acting_side m c.actor)) pending ∷ []) k.submissions_fit
                (normalized-fits m c.result (submit_new-inv m c e).0, tt);
          results_fit = k.results_fit;
        })
    | inr (was, _, now) ↦
        let ((s, one, state_is), nothing) = waiting was in
        subst IsSound (sym now) (record {
          shape = (
            All-append NotPending (dispute_pending m.submissions)
                (submission c (side_id (acting_side m c.actor)) in_dispute ∷ [])
                (subst (λ (ss : List ResultSubmission). All NotPending (dispute_pending ss))
                  (sym one) (dispute_one s state_is))
                (refl, tt),
            nothing,
          );
          chain = k.chain;
          fresh = k.fresh;
          submissions_fit =
              All-append (λ (s : ResultSubmission). FitsMatch m s.result)
                (dispute_pending m.submissions)
                (submission c (side_id (acting_side m c.actor)) in_dispute ∷ [])
                (dispute-fit m m.submissions k.submissions_fit)
                (normalized-fits m c.result (submit_new-inv m c e).0, tt);
          results_fit = k.results_fit;
        })
  ]

  confirmed-IsSound :
      (c : ConfirmResultCommand) {n : Match} {events : List DomainEvent}
      → confirm_new m c ≡ ok (n, events)
      → IsSound n
  confirmed-IsSound c {n} e =
      let (was, (s, side, judge, now), unused) = confirm_new-inv m c e in
      let ((q, one, state_is), nothing) = waiting was in
      let (same, closed) =
        judged_one c.submission_id confirmed q
          (subst (λ (ss : List ResultSubmission). submission_by_id ss c.submission_id ≡ some s) one
            judge.found)
          refl in
      let fits =
        subst (All (λ (s : ResultSubmission). FitsMatch m s.result)) one k.submissions_fit in
      subst IsSound (sym now) (record {
        shape = (
          subst
              (λ (ss : List ResultSubmission).
                All NotPending (set_state_by_id c.submission_id confirmed ss))
              (sym one) closed,
          (verified_by_opponent c s, last_of-append m.verified_results (verified_by_opponent c s)),
        );
        chain = Follows-first m.verified_results (verified_by_opponent c s) nothing refl refl;
        fresh = Fresh-append m.verified_results (verified_by_opponent c s) k.fresh unused;
        submissions_fit = judged-fit m c.submission_id confirmed m.submissions k.submissions_fit;
        results_fit =
            All-append (λ (v : VerifiedResult). FitsMatch m v.result) m.verified_results
              (verified_by_opponent c s ∷ []) k.results_fit
              (subst (λ (x : ResultSubmission). FitsMatch m x.result) (sym same) fits.0, tt);
      })

  disputed-IsSound :
      (c : DisputeResultCommand) {n : Match} {events : List DomainEvent}
      → dispute_new m c ≡ ok (n, events)
      → IsSound n
  disputed-IsSound c {n} e =
      let (was, (s, side, judge, now), _) = dispute_new-inv m c e in
      let ((q, one, state_is), nothing) = waiting was in
      let (same, closed) =
        judged_one c.submission_id in_dispute q
          (subst (λ (ss : List ResultSubmission). submission_by_id ss c.submission_id ≡ some s) one
            judge.found)
          refl in
      subst IsSound (sym now) (record {
        shape = (
          subst
              (λ (ss : List ResultSubmission).
                All NotPending (set_state_by_id c.submission_id in_dispute ss))
              (sym one) closed,
          nothing,
        );
        chain = k.chain;
        fresh = k.fresh;
        submissions_fit = judged-fit m c.submission_id in_dispute m.submissions k.submissions_fit;
        results_fit = k.results_fit;
      })

  -- Nothing is verified in the three states before the last.
  pub nothing_yet : m.state ≢ verified → m.verified_results ≡ []
  nothing_yet n = unverified m.state m.submissions m.verified_results n k.shape

  overridden-IsSound :
      (c : AdminOverrideCommand) {n : Match} {events : List DomainEvent}
      → override_new m c ≡ ok (n, events)
      → IsSound n
  overridden-IsSound c {n} e =
      let (was, now, verdict) = override_new-inv m c e in
      subst IsSound (sym now) (record {
        shape = (
          supersede-NotPending m.submissions,
          (overriding c, last_of-append m.verified_results (overriding c)),
        );
        chain = Follows-first m.verified_results (overriding c) (nothing_yet was) refl refl;
        fresh = Fresh-append m.verified_results (overriding c) k.fresh verdict.fresh;
        submissions_fit = supersede-fit m m.submissions k.submissions_fit;
        results_fit =
            All-append (λ (v : VerifiedResult). FitsMatch m v.result) m.verified_results
              (overriding c ∷ []) k.results_fit (normalized-fits m c.result verdict.fits, tt);
      })

  corrected-IsSound :
      (c : CorrectResultCommand) {n : Match} {events : List DomainEvent}
      → correct_new m c ≡ ok (n, events)
      → IsSound n
  corrected-IsSound c {n} e =
      let (was, (previous, last, _, now), verdict) = correct_new-inv m c e in
      let shape =
        subst (λ (st : MatchState). Shape st m.submissions m.verified_results) was k.shape in
      subst IsSound (sym now) (record {
        shape =
            subst
              (λ (st : MatchState).
                Shape st m.submissions (m.verified_results ++ correction c previous ∷ []))
              (sym was)
              (
                shape.0,
                (correction c previous, last_of-append m.verified_results (correction c previous)),
              );
        chain =
            Follows-append [] 0 m.verified_results (correction c previous) k.chain last refl refl;
        fresh = Fresh-append m.verified_results (correction c previous) k.fresh verdict.fresh;
        submissions_fit = k.submissions_fit;
        results_fit =
            All-append (λ (v : VerifiedResult). FitsMatch m v.result) m.verified_results
              (correction c previous ∷ []) k.results_fit
              (normalized-fits m c.result verdict.fits, tt);
      })

  run_new-IsSound :
      (c : Command) {n : Match} {events : List DomainEvent}
      → run_new m c ≡ ok (n, events)
      → IsSound n
  run_new-IsSound (submit c) e = submitted-IsSound c e
  run_new-IsSound (confirm c) e = confirmed-IsSound c e
  run_new-IsSound (dispute c) e = disputed-IsSound c e
  run_new-IsSound (override c) e = overridden-IsSound c e
  run_new-IsSound (correct c) e = corrected-IsSound c e

run-IsSound :
    (m : Match) (c : Command) {n : Match} {events : List DomainEvent}
    → IsSound m
    → run m c ≡ ok (n, events)
    → IsSound n
run-IsSound m c k e = elim (run-cases m c e).1 [
  | inl (_, same, _) ↦ subst IsSound (sym same) k
  | inr (_, new) ↦ run_new-IsSound m k c new
]

-- Every state that a new match reaches by any commands is sound: before a result nothing is submitted,
-- while one waits it is the only submission, and nothing pends in a dispute or after it; results are
-- verified exactly in the last state, their versions count up from 1, each names the one it supersedes,
-- no ID is used twice, and each result names one of the two sides as its winner or none for a tie.
pub Reaches-IsSound :
    (spec : MatchSpec) (one two : Team) {m n : Match}
    → new_match spec one two ≡ ok m
    → Reaches m n
    → IsSound n
Reaches-IsSound spec one two made at_once = new_match-IsSound spec one two made
Reaches-IsSound spec one two made (later c r e) =
    run-IsSound _ c (Reaches-IsSound spec one two made r) e
