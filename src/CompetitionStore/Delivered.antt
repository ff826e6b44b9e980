-- ===== src/CompetitionStore/Delivered.antt =====
-- The statistics count every match once, however often its result is delivered.
use go_book.Base.{
  Bool-cases, List, Option, [], ap, arith, inl, inr, none, refl, some, sym, true, ◌||◌, ◌∙◌, ◌∷◌,
  ◌≡◌, ◌⊎◌,
}
use go_book.Base.Result.{Result, err, ok, ok-injective}
use go_book.Base.Text.{Text, is_empty, text_eq_refl}
use go_book.CompetitionStore.Counted.{IsCounted, project-IsCounted}
use go_book.CompetitionStore.Stats.{Statistics, commit, handle, handle_decoded, is_applied, project}
use go_book.Events.Envelope.{Envelope}
use go_book.Events.Payloads.{MatchResultVerifiedPayload}

project-is_applied :
    (payload : MatchResultVerifiedPayload) (s : Statistics)
    → is_applied payload.match_id (project payload s).applied ≡ true
unfolding project is_applied
project-is_applied payload s = elim (Bool-cases (is_applied payload.match_id s.applied)) [
  | inl old ↦ rw old old
  | inr new ↦ rw new (ground (arith, text_eq_refl payload.match_id))
]

project-keeps_applied :
    (payload : MatchResultVerifiedPayload) (s : Statistics) (id : Text)
    → is_applied id s.applied ≡ true
    → is_applied id (project payload s).applied ≡ true
unfolding project is_applied
project-keeps_applied payload s id h = ground (arith, h)

-- A transaction changes nothing, or is all of it.
commit_cases :
    (why : Option Text) (payload : MatchResultVerifiedPayload) (s : Statistics)
    → ((commit why payload s).0 ≡ s) ⊎ (commit why payload s ≡ (project payload s, ok tt))
unfolding commit
commit_cases (some cause) payload s = inl refl
commit_cases none payload s = inr refl

commit-done :
    (why : Option Text) (payload : MatchResultVerifiedPayload) (s s' : Statistics)
    → commit why payload s ≡ (s', ok tt)
    → s' ≡ project payload s
unfolding commit
commit-done (some cause) payload s s' h = absurd cc
commit-done none payload s s' h = ap (λ (r : Statistics × Result Text (Unit {0})). r.0) (sym h)

project-old :
    (payload : MatchResultVerifiedPayload) (s : Statistics)
    → is_applied payload.match_id s.applied ≡ true
    → project payload s ≡ s
unfolding project
project-old payload s old = rw old refl

module _ {P : Type 0} (decode : P → Result Text MatchResultVerifiedPayload)
    (broken : MatchResultVerifiedPayload → Statistics → Option Text) where
  -- What deliveries of events, one after the other, make of the tables.
  abbrev pub deliver : List (Envelope P) → Statistics → Statistics
  deliver [] s = s
  deliver (e ∷ es) s = deliver es (handle decode broken e s).0

  -- A delivery changes nothing, or is the whole transaction.
  decoded_cases :
      (m : Result Text MatchResultVerifiedPayload) (s : Statistics)
      → ((handle_decoded decode broken m s).0 ≡ s)
        ⊎ ((payload : MatchResultVerifiedPayload) × (m ≡ ok payload)
            × ((handle_decoded decode broken m s).0 ≡ project payload s))
  unfolding handle_decoded
  decoded_cases (err cause) s = inl refl
  decoded_cases (ok payload) s =
      elim (Bool-cases (is_empty payload.match_id || is_empty payload.competition_event_id)) [
        | inl missing ↦ rw missing (inl refl)
        | inr both ↦ rw both (elim (commit_cases (broken payload s) payload s) [
          | inl same ↦ inl same
          | inr all ↦ inr (payload, refl, rw all refl)
        ])
      ]

  -- From tables that count each match once, any events in any order, delivered any number of times and
  -- broken off anywhere, lead to tables that do: each match is applied once; the matches that the rows of
  -- a player count, over all competition events, are the places that the player has in the matches
  -- applied; and every row meets its constraints: the singles and the other matches add up to the totals,
  -- and no more matches are won, lost or tied than played.
  pub deliver-IsCounted :
      (es : List (Envelope P)) (s : Statistics) → IsCounted s → IsCounted (deliver es s)
  unfolding handle
  deliver-IsCounted [] s h = h
  deliver-IsCounted (e ∷ es) s h =
      deliver-IsCounted es _ (elim (decoded_cases (decode e.payload) s) [
        | inl same ↦ rw same h
        | inr (payload, _, next) ↦ rw next (project-IsCounted payload s h)
      ])

  deliver-keeps_applied :
      (es : List (Envelope P)) (s : Statistics) (id : Text)
      → is_applied id s.applied ≡ true
      → is_applied id (deliver es s).applied ≡ true
  unfolding handle
  deliver-keeps_applied [] s id h = h
  deliver-keeps_applied (e ∷ es) s id h =
      deliver-keeps_applied es _ id (elim (decoded_cases (decode e.payload) s) [
        | inl same ↦ rw same h
        | inr (payload, _, next) ↦ rw next (project-keeps_applied payload s id h)
      ])

  decoded-applied :
      (payload : MatchResultVerifiedPayload) (s s' : Statistics)
      → handle_decoded decode broken (ok payload) s ≡ (s', ok tt)
      → is_applied payload.match_id s'.applied ≡ true
  unfolding handle_decoded
  decoded-applied payload s s' h =
      elim (Bool-cases (is_empty payload.match_id || is_empty payload.competition_event_id)) [
        | inl missing ↦ absurd (cc (rw missing at h))
        | inr both ↦
            rw (commit-done (broken payload s) payload s s' (rw both at h))
              (project-is_applied payload s)
      ]

  decoded-old :
      (payload : MatchResultVerifiedPayload) (s : Statistics)
      → is_applied payload.match_id s.applied ≡ true
      → (handle_decoded decode broken (ok payload) s).0 ≡ s
  decoded-old payload s old = elim (decoded_cases (ok payload) s) [
    | inl same ↦ same
    | inr (other, e, next) ↦ next ∙ rw (sym (ok-injective e)) (project-old payload s old)
  ]

  -- After a delivery that has succeeded, and whatever else has been delivered since, no event for that
  -- match changes the statistics again, whatever result it carries.
  pub handle_again :
      (e again : Envelope P) (es : List (Envelope P)) (s s' : Statistics)
      {payload other : MatchResultVerifiedPayload}
      → decode e.payload ≡ ok payload
      → handle decode broken e s ≡ (s', ok tt)
      → decode again.payload ≡ ok other
      → other.match_id ≡ payload.match_id
      → (handle decode broken again (deliver es s')).0 ≡ deliver es s'
  unfolding handle
  handle_again e again es s s' {payload} {other} d h d2 same =
      let was_applied = decoded-applied payload s s' (rw d at h) in
      rw d2 (
        decoded-old other (deliver es s')
          (rw same (deliver-keeps_applied es s' payload.match_id was_applied)))
