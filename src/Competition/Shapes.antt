-- ===== src/Competition/Shapes.antt =====
-- What holds of a match in every state that its commands reach.
use go_book.Base.{
  All, Bool-cases, List, [], arith, false, inl, inr, refl, some, ◌++◌, ◌∷◌, ◌≡◌, ◌≢◌,
}
use go_book.Base.Result.{Result-cases, ok}
use go_book.Base.Text.{text_eq}
use go_book.Betting.Settle.{nothing}
use go_book.Competition.Chain.{Follows, Fresh}
use go_book.Competition.Inverted.{FitsMatch}
use go_book.Competition.Match.{
  Match, MatchState, ResultSubmission, SubmissionState, VerifiedResult, awaiting_confirmation,
  awaiting_result, check_side, dispute_pending, disputed, is_pending, new_match, pending,
  set_state_by_id, submission_by_id, verified,
}
use go_book.Competition.Types.{
  EntityId, MatchResult, MatchSpec, Team, normalized, participant_rule_for, validate_match_result,
}
use go_book.Competition.Verify.{last_of, supersede_pending}

abbrev pub NotPending : ResultSubmission → Type 0
NotPending s = is_pending s.state ≡ false

-- What the state of the match says of its submissions and its verified results.
abbrev pub Shape : MatchState → List ResultSubmission → List VerifiedResult → Type 0
Shape awaiting_result ss vs = (ss ≡ []) × (vs ≡ [])
Shape awaiting_confirmation ss vs =
    ((s : ResultSubmission) × (ss ≡ s ∷ []) × (s.state ≡ pending)) × (vs ≡ [])
Shape disputed ss vs = All NotPending ss × (vs ≡ [])
Shape verified ss vs = All NotPending ss × ((v : VerifiedResult) × (last_of vs ≡ some v))

pub record IsSound (m : Match) : Type 0 where
  pub shape : Shape m.state m.submissions m.verified_results
  pub chain : Follows [] 0 m.verified_results
  pub fresh : Fresh m.verified_results
  pub submissions_fit : All (λ (s : ResultSubmission). FitsMatch m s.result) m.submissions
  pub results_fit : All (λ (v : VerifiedResult). FitsMatch m v.result) m.verified_results

pub last_of-append :
    (vs : List VerifiedResult) (v : VerifiedResult) → last_of (vs ++ v ∷ []) ≡ some v
last_of-append [] v = refl
last_of-append (u ∷ []) v = refl
last_of-append (u ∷ w ∷ vs) v = last_of-append (w ∷ vs) v

new_match-empty :
    (spec : MatchSpec) (one two : Team) {m : Match}
    → new_match spec one two ≡ ok m
    → (m.state ≡ awaiting_result) × (m.submissions ≡ []) × (m.verified_results ≡ [])
unfolding new_match
new_match-empty spec one two e = elim (Result-cases (participant_rule_for spec.format)) [
  | inr (x, f) ↦ ground arith
  | inl (r, f) ↦ elim (Result-cases (check_side one [] spec.side_one.participants)) [
    | inr (x, g) ↦ ground arith
    | inl (seen, g) ↦ ground (arith, Result-cases (check_side two seen spec.side_two.participants))
  ]
]

pub new_match-IsSound :
    (spec : MatchSpec) (one two : Team) {m : Match} → new_match spec one two ≡ ok m → IsSound m
new_match-IsSound spec one two {m} e =
    let (state_is, none_yet, nothing) = new_match-empty spec one two e in
    record {
      shape = rw (state_is, none_yet, nothing) (refl, refl);
      chain = rw nothing tt;
      fresh = rw nothing tt;
      submissions_fit = rw none_yet tt;
      results_fit = rw nothing tt;
    }

-- Trimming the score leaves the winner as it is.
pub normalized-fits : (m : Match) (r : MatchResult) → FitsMatch m r → FitsMatch m (normalized r)
unfolding validate_match_result
normalized-fits m r h = h

pub supersede-NotPending : (ss : List ResultSubmission) → All NotPending (supersede_pending ss)
unfolding supersede_pending
supersede-NotPending [] = tt
supersede-NotPending (s ∷ ss) = elim (Bool-cases (is_pending s.state)) [
  | inl e ↦ rw e (refl, supersede-NotPending ss)
  | inr e ↦ rw e (e, supersede-NotPending ss)
]

pub supersede-fit :
    (m : Match) (ss : List ResultSubmission)
    → All (λ (s : ResultSubmission). FitsMatch m s.result) ss
    → All (λ (s : ResultSubmission). FitsMatch m s.result) (supersede_pending ss)
unfolding supersede_pending
supersede-fit m [] h = tt
supersede-fit m (s ∷ ss) (h, hs) = elim (Bool-cases (is_pending s.state)) [
  | inl e ↦ rw e (h, supersede-fit m ss hs)
  | inr e ↦ rw e (h, supersede-fit m ss hs)
]

pub dispute_one :
    (s : ResultSubmission) → s.state ≡ pending → All NotPending (dispute_pending (s ∷ []))
unfolding dispute_pending
dispute_one s e = rw e (refl, tt)

pub dispute-fit :
    (m : Match) (ss : List ResultSubmission)
    → All (λ (s : ResultSubmission). FitsMatch m s.result) ss
    → All (λ (s : ResultSubmission). FitsMatch m s.result) (dispute_pending ss)
unfolding dispute_pending
dispute-fit m [] h = tt
dispute-fit m (s ∷ ss) (h, hs) = elim (Bool-cases (is_pending s.state)) [
  | inl e ↦ rw e (h, hs)
  | inr e ↦ rw e (h, dispute-fit m ss hs)
]

pub judged-fit :
    (m : Match) (id : EntityId) (state : SubmissionState) (ss : List ResultSubmission)
    → All (λ (s : ResultSubmission). FitsMatch m s.result) ss
    → All (λ (s : ResultSubmission). FitsMatch m s.result) (set_state_by_id id state ss)
unfolding set_state_by_id
judged-fit m id state [] h = tt
judged-fit m id state (s ∷ ss) (h, hs) = elim (Bool-cases (text_eq s.id id)) [
  | inl e ↦ rw e (h, hs)
  | inr e ↦ rw e (h, judged-fit m id state ss hs)
]

-- The one submission that is found is the one that is judged.
pub judged_one :
    (id : EntityId) (state : SubmissionState) (s : ResultSubmission) {t : ResultSubmission}
    → submission_by_id (s ∷ []) id ≡ some t
    → is_pending state ≡ false
    → (t ≡ s) × All NotPending (set_state_by_id id state (s ∷ []))
unfolding submission_by_id set_state_by_id
judged_one id state s e n = elim (Bool-cases (text_eq s.id id)) [
  | inl f ↦ (ground arith, rw f (n, tt))
  | inr f ↦ ground arith
]

pub unverified :
    (state : MatchState) (ss : List ResultSubmission) (vs : List VerifiedResult)
    → state ≢ verified
    → Shape state ss vs
    → vs ≡ []
unverified awaiting_result ss vs n (_, e) = e
unverified awaiting_confirmation ss vs n (_, e) = e
unverified disputed ss vs n (_, e) = e
unverified verified ss vs n _ = absurd (n refl)
