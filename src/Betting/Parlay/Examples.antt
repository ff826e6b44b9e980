-- ===== src/Betting/Parlay/Examples.antt =====
-- A parlay of two matches at -110 each, ten dollars at a juice of 350 basis points.
use go_book.Base.{[], refl, true, ◌↔◌, ◌∷◌, ◌≡◌, ◌⊎◌}
use go_book.Base.Int.{negsuc, pos, quot, rem, wrap32, wrap64, ◌*ℤ◌, ◌+ℤ◌, ◌-ℤ◌}
use go_book.Base.Result.{ok}
use go_book.Base.Text.{byte_length, codes, is_blank, is_space, trim_space}
use go_book.Betting.Parlay.Distinct.{pairs}
use go_book.Betting.Parlay.Grade.{grade_parlay}
use go_book.Betting.Parlay.Graded.{IsLost, IsOff, IsWon, grade_parlay-IsGraded}
use go_book.Betting.Parlay.Place.{
  Parlay, PlaceParlayCommand, check_leg, check_parlay, legs_of, parlay, place_parlay, seen,
}
use go_book.Betting.Parlay.Placed.{
  IsBounded, IsPlacedParlay, place_parlay-IsBounded, place_parlay_iff,
}
use go_book.Betting.Parlay.Price.{juiced, legs_probability, parlay_odds_for}
use go_book.Betting.Parlay.Priced.{IsPriced, parlay_odds_for-IsPriced}
use go_book.Betting.Parlay.Won.{all_won, all_won-IsPaid, won_outcome}
use go_book.Betting.Place.{check_open, is_restricted}
use go_book.Betting.Types.{
  EntityId, Market, Selection, funding_user_cash, market_match, market_open, matches_key,
  validate_funding, validate_market, validate_market_state, validate_market_type,
  validate_selection,
}
use go_book.Ledger.Money.{cad, validate_currency}
use go_book.Ledger.Odds.{new_american_odds, profit, rounded, validate_odds}
use go_book.Pricing.Fixed.{fixed}
use go_book.Pricing.Line.{
  american_from_probability, clamp_probability, implied_probability, nearest_line,
}

abbrev match_market : EntityId → Market
match_market id = record {
  id = id;
  kind = market_match;
  match_id = codes "match";
  title = codes "Blue v Red";
  state = market_open;
  currency = cad;
  opens_at = 0;
  closes_at = 100;
}

abbrev blue_of : EntityId → Selection
blue_of id = record {
  id = codes "blue";
  market_id = id;
  key = codes "blue";
  display_terms = codes "Blue wins";
  offered_odds = negsuc 109;
  semantic_result_key = codes "side:blue";
  active = true;
}

abbrev double : PlaceParlayCommand
double = record {
  parlay_id = codes "p1";
  user_id = codes "member";
  markets = match_market (codes "m1") ∷ match_market (codes "m2") ∷ [];
  selections = blue_of (codes "m1") ∷ blue_of (codes "m2") ∷ [];
  restrictions = [];
  juice_basis_points = pos 350;
  max_payout_cents = pos 500_000;
  placed_by = codes "member";
  funding = funding_user_cash;
  stake = record { cents = pos 1000; currency = cad };
  idempotency_key = codes "k";
  now = 50;
}

-- As the source says, two legs at -110 come back at +252.
abbrev struck : Parlay
struck =
    parlay double (pos 252) (record { cents = pos 2520; currency = cad })
      (pairs double.markets double.selections)

placed_ok : place_parlay fixed double ≡ ok struck
unfolding place_parlay check_parlay legs_of check_leg seen check_open validate_market
    validate_market_type validate_market_state validate_selection matches_key is_restricted is_blank
    trim_space is_space validate_funding validate_currency validate_odds byte_length profit rounded
    quot rem wrap64 ◌*ℤ◌ ◌+ℤ◌ ◌-ℤ◌ pairs parlay_odds_for legs_probability juiced implied_probability
    american_from_probability new_american_odds wrap32 nearest_line clamp_probability
placed_ok = refl

place_parlay_iff_example :
    (place_parlay fixed double ≡ ok struck) ↔ IsPlacedParlay fixed double struck
place_parlay_iff_example = place_parlay_iff fixed double struck

place_parlay-IsBounded_example : IsBounded fixed struck
place_parlay-IsBounded_example = place_parlay-IsBounded fixed double placed_ok

paid : grade_parlay fixed (all_won struck) (pos 350) ≡ ok (won_outcome struck)
paid = all_won-IsPaid fixed double placed_ok

all_won-IsPaid_example : grade_parlay fixed (all_won struck) (pos 350) ≡ ok (won_outcome struck)
all_won-IsPaid_example = all_won-IsPaid fixed double placed_ok

parlay_odds_for-IsPriced_example :
    IsPriced fixed
      (negsuc 109 ∷ negsuc 109 ∷ [])
      (pos 350)
      (parlay_odds_for fixed (negsuc 109 ∷ negsuc 109 ∷ []) (pos 350))
parlay_odds_for-IsPriced_example =
    parlay_odds_for-IsPriced fixed (negsuc 109 ∷ negsuc 109 ∷ []) (pos 350)

grade_parlay-IsGraded_example :
    ((won_outcome struck).stake ≡ (all_won struck).stake)
    × (IsLost fixed (all_won struck) (pos 350) (won_outcome struck)
        ⊎ IsOff fixed (all_won struck) (pos 350) (won_outcome struck)
        ⊎ IsWon fixed (all_won struck) (pos 350) (won_outcome struck))
grade_parlay-IsGraded_example = grade_parlay-IsGraded fixed (all_won struck) (pos 350) paid
