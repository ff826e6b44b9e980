-- ===== src/Competition/Inverted.antt =====
-- What each command on a match has checked when it succeeds.
use go_book.Base.{Bool-cases, List, Option-cases, arith, false, inl, inr, some, true, ◌≡◌, ◌≢◌, ◌⊎◌}
use go_book.Base.Result.{Result-cases, ok}
use go_book.Base.Text.{Text, is_empty, text_eq_iff, trim_space}
use go_book.Competition.Confirm.{
  ConfirmResultCommand, DisputeResultCommand, confirm_new, confirmed_match, dispute_new,
  disputed_match, opposing_side,
}
use go_book.Competition.Match.{
  DomainEvent, Match, ResultSubmission, VerifiedResult, acting_side, awaiting_confirmation,
  awaiting_result, has_verification, is_awaiting_confirmation, is_submitter, pending_submission,
  submission_by_id, verified,
}
use go_book.Competition.Submit.{
  SubmitResultCommand, first_submission, second_submission, side_id, submit_new, submit_second,
}
use go_book.Competition.Types.{
  Actor, EntityId, MatchResult, normalized, privileged, results_equal, valid_id,
  validate_match_result,
}
use go_book.Competition.Verify.{
  AdminOverrideCommand, CorrectResultCommand, check_verdict, correct_new, corrected_match, last_of,
  overridden_match, override_new,
}
use go_book.Events.Envelope.{Time}

pub record IsJudge (m : Match) (actor : Actor) (id : EntityId) (s : ResultSubmission)
    (side : EntityId) : Type 0 where
  pub found : submission_by_id m.submissions id ≡ some s
  pub someone_else : is_submitter actor s ≡ false
  pub takes_side : acting_side m actor ≡ some side
  pub has_side : valid_id s.submitter_side ≡ true
  pub opposes : side ≢ s.submitter_side

opposing_side-IsJudge :
    (m : Match) (actor : Actor) (id : EntityId) {s : ResultSubmission} {side : EntityId}
    → opposing_side m actor id ≡ ok (s, side)
    → IsJudge m actor id s side
unfolding opposing_side
opposing_side-IsJudge m actor id {s} {side} e =
    elim (Option-cases (submission_by_id m.submissions id)) [
      | inl f ↦ ground arith
      | inr (q, f) ↦ elim (Option-cases (acting_side m actor)) [
        | inl g ↦ ground arith
        | inr (r, g) ↦ record {
          found = ground arith;
          someone_else = ground arith;
          takes_side = ground arith;
          has_side = ground arith;
          opposes = ground (arith, text_eq_iff side s.submitter_side);
        }
      ]
    ]

pub confirm_new-inv :
    (m : Match) (c : ConfirmResultCommand) {n : Match} {events : List DomainEvent}
    → confirm_new m c ≡ ok (n, events)
    → (m.state ≡ awaiting_confirmation)
      × ((s : ResultSubmission) × (side : EntityId) × IsJudge m c.actor c.submission_id s side
          × (n ≡ confirmed_match m c s side))
      × (has_verification m.verified_results c.verification_id ≡ false)
unfolding confirm_new
confirm_new-inv m c {n} {events} e = elim (Result-cases (opposing_side m c.actor c.submission_id)) [
  | inr (x, f) ↦ ground arith
  | inl ((s, side), f) ↦ (
    ground arith,
    (s, side, opposing_side-IsJudge m c.actor c.submission_id f, ground arith),
    ground arith,
  )
]

pub dispute_new-inv :
    (m : Match) (c : DisputeResultCommand) {n : Match} {events : List DomainEvent}
    → dispute_new m c ≡ ok (n, events)
    → (m.state ≡ awaiting_confirmation)
      × ((s : ResultSubmission) × (side : EntityId) × IsJudge m c.actor c.submission_id s side
          × (n ≡ disputed_match m c s side))
      × (is_empty (trim_space c.reason) ≡ false)
unfolding dispute_new
dispute_new-inv m c {n} {events} e = elim (Result-cases (opposing_side m c.actor c.submission_id)) [
  | inr (x, f) ↦ ground arith
  | inl ((s, side), f) ↦ (
    ground arith,
    (s, side, opposing_side-IsJudge m c.actor c.submission_id f, ground arith),
    ground arith,
  )
]

-- A result that names one of the two sides as the winner, or none for a tie.
abbrev pub FitsMatch : Match → MatchResult → Type 0
FitsMatch m r = validate_match_result r m.spec.side_one.id m.spec.side_two.id ≡ ok tt

pub record IsVerdict (m : Match) (id : EntityId) (actor : Actor) (result : MatchResult)
    (reason : Text) : Type 0 where
  pub by_admin : privileged actor.role ≡ true
  pub explained : is_empty (trim_space reason) ≡ false
  pub fits : FitsMatch m result
  pub fresh : has_verification m.verified_results id ≡ false

check_verdict-IsVerdict :
    (m : Match) (id : EntityId) (actor : Actor) (result : MatchResult) (reason : Text) (at : Time)
    → check_verdict m id actor result reason at ≡ ok tt
    → IsVerdict m id actor result reason
unfolding check_verdict
check_verdict-IsVerdict m id actor result reason at e = record {
  by_admin = ground arith;
  explained = ground arith;
  fits = ground arith;
  fresh = ground arith;
}

pub override_new-inv :
    (m : Match) (c : AdminOverrideCommand) {n : Match} {events : List DomainEvent}
    → override_new m c ≡ ok (n, events)
    → (m.state ≢ verified)
      × (n ≡ overridden_match m c)
      × IsVerdict m c.verification_id c.actor c.result c.reason
unfolding override_new
override_new-inv m c {n} {events} e =
    elim (Result-cases
      (check_verdict m c.verification_id c.actor c.result c.reason c.occurred_at)) [
        | inr (x, f) ↦ ground arith
        | inl (tt, f) ↦ (
          ground arith,
          ground arith,
          check_verdict-IsVerdict m c.verification_id c.actor c.result c.reason c.occurred_at f,
        )
      ]

pub correct_new-inv :
    (m : Match) (c : CorrectResultCommand) {n : Match} {events : List DomainEvent}
    → correct_new m c ≡ ok (n, events)
    → (m.state ≡ verified)
      × ((previous : VerifiedResult) × (last_of m.verified_results ≡ some previous)
          × (results_equal previous.result (normalized c.result) ≡ false)
          × (n ≡ corrected_match m c previous))
      × IsVerdict m c.verification_id c.actor c.result c.reason
unfolding correct_new
correct_new-inv m c {n} {events} e =
    elim (Result-cases
      (check_verdict m c.verification_id c.actor c.result c.reason c.occurred_at)) [
        | inr (x, f) ↦ ground arith
        | inl (tt, f) ↦ elim (Option-cases (last_of m.verified_results)) [
          | inl g ↦ ground arith
          | inr (previous, g) ↦ (
            ground arith,
            (previous, g, ground arith, ground arith),
            check_verdict-IsVerdict m c.verification_id c.actor c.result c.reason c.occurred_at f,
          )
        ]
      ]

-- A first submission, or a second one of the other side that differs.
abbrev pub Submitted : Match → SubmitResultCommand → Match → Type 0
Submitted m c n =
    ((m.state ≡ awaiting_result) × (n ≡ first_submission m c))
    ⊎ ((m.state ≡ awaiting_confirmation)
        × ((p : ResultSubmission) × (pending_submission m.submissions ≡ some p)
            × (is_submitter c.actor p ≡ false)
            × (side_id (acting_side m c.actor) ≢ p.submitter_side)
            × (results_equal p.result (normalized c.result) ≡ false))
        × (n ≡ second_submission m c))

pub submit_new-inv :
    (m : Match) (c : SubmitResultCommand) {n : Match} {events : List DomainEvent}
    → submit_new m c ≡ ok (n, events)
    → FitsMatch m c.result × Submitted m c n
unfolding submit_new submit_second
submit_new-inv m c {n} {events} e = elim (Bool-cases (is_awaiting_confirmation m.state)) [
  | inr f ↦ (ground arith, inl (ground arith, ground arith))
  | inl f ↦ elim (Option-cases (pending_submission m.submissions)) [
    | inl g ↦ ground arith
    | inr (p, g) ↦ (
      ground arith,
      inr (
        ground arith,
        (
          p,
          g,
          ground arith,
          ground (arith, text_eq_iff (side_id (acting_side m c.actor)) p.submitter_side),
          ground arith,
        ),
        ground arith,
      ),
    )
  ]
]
