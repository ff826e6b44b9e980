-- ===== src/CompetitionStore/Counted.antt =====
-- What one verified result makes of the statistics.
use go_book.Base.{
  All, Bool-cases, List, [], arith, false, if◌then◌else◌, inl, inr, refl, ℕ, ◌&&◌, ◌+◌, ◌∷◌, ◌≡◌,
  ◌≢◌, ◌≤◌,
}
use go_book.Base.Text.{Text, eq_of_text_eq, text_eq, text_eq_iff}
use go_book.CompetitionStore.Stats.{
  Participant, Projection, Statistics, increment, is_applied, merged, outcome_for_side,
  participants_of, project, project_all, upsert,
}
use go_book.Events.Payloads.{MatchResultVerifiedPayload}

-- The matches that the rows of a player count, over all competition events.
abbrev played_by : Text → List Projection → ℕ
played_by p [] = 0
played_by p (r ∷ rs) = (if text_eq r.player_id p then r.overall.played else 0) + played_by p rs

abbrev appearances : Text → List Participant → ℕ
appearances p [] = 0
appearances p (q ∷ qs) = (if text_eq q.player_id p then 1 else 0) + appearances p qs

-- The rows by which a player is in a match.
abbrev places_of : Text → Text → List Participant → ℕ
places_of p m [] = 0
places_of p m (q ∷ qs) =
    (if text_eq q.match_id m && text_eq q.player_id p then 1 else 0) + places_of p m qs

-- The places that a player has in some matches.
abbrev places_in : Text → List Text → List Participant → ℕ
places_in p [] qs = 0
places_in p (m ∷ ms) qs = places_of p m qs + places_in p ms qs

abbrev pub AreDistinctIds : List Text → Type 0
AreDistinctIds [] = Unit {0}
AreDistinctIds (m ∷ ms) = All (λ n. n ≢ m) ms × AreDistinctIds ms

-- The CHECK constraints of a row.
pub record IsProjection (r : Projection) : Type 0 where
  pub played_adds_up : r.singles.played + r.team.played ≡ r.overall.played
  pub wins_add_up : r.singles.wins + r.team.wins ≡ r.overall.wins
  pub losses_add_up : r.singles.losses + r.team.losses ≡ r.overall.losses
  pub ties_add_up : r.singles.ties + r.team.ties ≡ r.overall.ties
  pub points_add_up : r.singles.points + r.team.points ≡ r.overall.points
  pub within_played : r.overall.wins + r.overall.losses + r.overall.ties ≤ r.overall.played

pub record IsCounted (s : Statistics) : Type 0 where
  pub once_each : AreDistinctIds s.applied
  pub each_counted : (p : Text) → played_by p s.projections ≡ places_in p s.applied s.participants
  pub rows_valid : All IsProjection s.projections

appearances-participants_of :
    (p m : Text) (qs : List Participant) → appearances p (participants_of m qs) ≡ places_of p m qs
unfolding participants_of
appearances-participants_of p m [] = refl
appearances-participants_of p m (q ∷ qs) = ground (arith, appearances-participants_of p m qs)

played_by-upsert :
    (p : Text) (new : Projection) (olds : List Projection)
    → played_by p (upsert new olds)
      ≡ (if text_eq new.player_id p then new.overall.played else 0) + played_by p olds
unfolding upsert
played_by-upsert p new [] = refl
played_by-upsert p new (old ∷ olds) =
    elim (Bool-cases (text_eq old.player_id new.player_id && text_eq old.event_id new.event_id)) [
      | inl same ↦
          let one_player = eq_of_text_eq old.player_id new.player_id (ground arith) in
          rw (same, one_player) (ground arith)
      | inr other ↦ rw other (ground (arith, played_by-upsert p new olds))
    ]

outcome_for_side-one :
    (outcome winner side : Text) → (outcome_for_side outcome winner side).played ≡ 1
unfolding outcome_for_side
outcome_for_side-one outcome winner side = ground arith

played_by-project_all :
    (p : Text) (payload : MatchResultVerifiedPayload) (qs : List Participant) (rs : List Projection)
    → played_by p (project_all payload qs rs) ≡ appearances p qs + played_by p rs
unfolding project_all increment
played_by-project_all p payload [] rs = omega arith
played_by-project_all p payload (q ∷ qs) rs =
    let next = increment payload q in
    let one = outcome_for_side-one payload.outcome payload.winning_side_id q.side_id in
    ground
      (arith, one, played_by-upsert p next rs, played_by-project_all p payload qs (upsert next rs))

increment-IsProjection :
    (payload : MatchResultVerifiedPayload) (q : Participant) → IsProjection (increment payload q)
unfolding increment outcome_for_side
increment-IsProjection payload q = record {
  played_adds_up = ground arith;
  wins_add_up = ground arith;
  losses_add_up = ground arith;
  ties_add_up = ground arith;
  points_add_up = ground arith;
  within_played = ground arith;
}

merged-IsProjection :
    (old new : Projection) → IsProjection old → IsProjection new → IsProjection (merged old new)
merged-IsProjection old new f g = record {
  played_adds_up = omega (arith, f.played_adds_up, g.played_adds_up);
  wins_add_up = omega (arith, f.wins_add_up, g.wins_add_up);
  losses_add_up = omega (arith, f.losses_add_up, g.losses_add_up);
  ties_add_up = omega (arith, f.ties_add_up, g.ties_add_up);
  points_add_up = omega (arith, f.points_add_up, g.points_add_up);
  within_played = omega (arith, f.within_played, g.within_played);
}

upsert-IsProjection :
    (new : Projection) (olds : List Projection)
    → IsProjection new
    → All IsProjection olds
    → All IsProjection (upsert new olds)
unfolding upsert
upsert-IsProjection new [] h all = (h, tt)
upsert-IsProjection new (old ∷ olds) h all =
    elim (Bool-cases (text_eq old.player_id new.player_id && text_eq old.event_id new.event_id)) [
      | inl same ↦ rw same (merged-IsProjection old new all.0 h, all.1)
      | inr other ↦ rw other (all.0, upsert-IsProjection new olds h all.1)
    ]

project_all-IsProjection :
    (payload : MatchResultVerifiedPayload) (qs : List Participant) (rs : List Projection)
    → All IsProjection rs
    → All IsProjection (project_all payload qs rs)
unfolding project_all
project_all-IsProjection payload [] rs all = all
project_all-IsProjection payload (q ∷ qs) rs all =
    project_all-IsProjection payload qs _
      (upsert-IsProjection (increment payload q) rs (increment-IsProjection payload q) all)

is_applied-none :
    (m : Text) (ms : List Text) → is_applied m ms ≡ false → All (λ (n : Text). n ≢ m) ms
unfolding is_applied
is_applied-none m [] h = tt
is_applied-none m (n ∷ ms) h =
    (ground (arith, text_eq_iff m n), is_applied-none m ms (ground arith))

pub project-IsCounted :
    (payload : MatchResultVerifiedPayload) (s : Statistics)
    → IsCounted s
    → IsCounted (project payload s)
unfolding project
project-IsCounted payload s h = elim (Bool-cases (is_applied payload.match_id s.applied)) [
  | inl old ↦ rw old h
  | inr new ↦ rw new (record {
    once_each = (is_applied-none payload.match_id s.applied new, h.once_each);
    each_counted = λ p. ground (
      arith,
      h.each_counted p,
      appearances-participants_of p payload.match_id s.participants,
      played_by-project_all p payload (participants_of payload.match_id s.participants)
          s.projections,
    );
    rows_valid = project_all-IsProjection payload _ _ h.rows_valid;
  })
]
