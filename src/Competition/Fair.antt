-- ===== src/Competition/Fair.antt =====
-- Teams and matches that are set up: who may be on a team, and who plays on which side.
-- No player is named twice.
use go_book.Base.{All, List, [], false, length, true, ℕ, ◌||◌, ◌∷◌, ◌≡◌, ◌≢◌, ◌≤◌}
use go_book.Base.Text.{Text}
use go_book.Betting.Parlay.Place.{seen}
use go_book.Competition.Match.{Match}
use go_book.Competition.Types.{
  EntityId, MatchFormat, MatchSpec, Team, format_fourball, format_foursomes, format_other,
  format_scramble, format_singles, has, unknown_format,
}

abbrev pub NoTwice : List EntityId → Type 0
NoTwice [] = Unit
NoTwice (p ∷ ps) = (has ps p ≡ false) × NoTwice ps

abbrev pub Within : List EntityId → List EntityId → Type 0
Within members = All (λ (p : EntityId). has members p ≡ true)

abbrev pub Outside : List EntityId → List EntityId → Type 0
Outside seen = All (λ (p : EntityId). has seen p ≡ false)

-- What the loop over one side has made sure of.
abbrev Sided : Team → List EntityId → List EntityId → List EntityId → Type 0
Sided team seen ps out =
    Within team.members ps
    × NoTwice ps
    × Outside seen ps
    × ((x : EntityId) → has out x ≡ has seen x || has ps x)

-- How many players there may be on the two sides.
abbrev pub FitsFormat : MatchFormat → ℕ → ℕ → Type 0
FitsFormat format_singles one two = (one ≡ 1) × (two ≡ 1)
FitsFormat format_fourball one two = (one ≡ 2) × (two ≡ 2)
FitsFormat format_foursomes one two = (one ≡ 2) × (two ≡ 2)
FitsFormat format_scramble one two = (one ≡ 2) × (two ≡ 2)
FitsFormat format_other one two = (1 ≤ one) × (1 ≤ two)
FitsFormat (unknown_format _) one two = ⊥

-- Who may play whom.
pub record IsFair (spec : MatchSpec) (one two : Team) : Type 0 where
  pub sides_differ : spec.side_one.id ≢ spec.side_two.id
  pub teams_differ : one.id ≢ two.id
  pub of_event : (one.event_id ≡ spec.event_id) × (two.event_id ≡ spec.event_id)
  pub members_one : Within one.members spec.side_one.participants
  pub members_two : Within two.members spec.side_two.participants
  pub no_player_twice : NoTwice spec.side_one.participants × NoTwice spec.side_two.participants
  pub on_one_side : Outside spec.side_one.participants spec.side_two.participants
  pub counts :
      FitsFormat spec.format (length spec.side_one.participants) (length spec.side_two.participants)
