-- ===== src/Pricing/Examples.antt =====
-- Lines at concrete stakes.
use go_book.Base.{All, List, [], false, inl, refl, ◌+◌, ◌∷◌, ◌≡◌}
use go_book.Base.Int.{negsuc, pos, quot, wrap32, wrap64, ℤ, ◌*ℤ◌, ◌+ℤ◌, ◌-ℤ◌}
use go_book.Base.Result.{ok}
use go_book.Ledger.Odds.{new_american_odds, validate_odds}
use go_book.Pricing.Fixed.{fixed}
use go_book.Pricing.Floors.{AtFloor, apply_drift_floors-IsSettled}
use go_book.Pricing.Line.{
  american_from_probability, clamp_probability, implied_probability, nearest_line,
  shorten_one_point,
}
use go_book.Pricing.Reprice.{
  Runner, SelectionInput, apply_drift_floors, drift_floors, lines_of, one_pass, priors_of, reprice,
  repriced_runners, rescaled, runners_of, tilt, walk_back, weights_of,
}

-- Two sides at -110 with five hundred dollars on the first, at a liquidity of five thousand.
abbrev even_book : ℤ → List SelectionInput
even_book stake =
    record { opening_odds = negsuc 109; stake_cents = stake }
    ∷ record { opening_odds = negsuc 109; stake_cents = pos 0 }
    ∷ []

untouched : reprice fixed (even_book (pos 0)) (pos 500_000) ≡ ok (negsuc 109 ∷ negsuc 109 ∷ [])
unfolding reprice quot priors_of validate_odds lines_of repriced_runners apply_drift_floors one_pass
    weights_of drift_floors ◌*ℤ◌ implied_probability ◌+ℤ◌ ◌-ℤ◌ american_from_probability
    new_american_odds wrap32 nearest_line clamp_probability wrap64 shorten_one_point rescaled
    runners_of tilt walk_back
untouched = refl

moved : reprice fixed (even_book (pos 50_000)) (pos 500_000) ≡ ok (negsuc 118 ∷ negsuc 101 ∷ [])
unfolding reprice quot priors_of validate_odds lines_of repriced_runners apply_drift_floors one_pass
    weights_of drift_floors ◌*ℤ◌ implied_probability ◌+ℤ◌ ◌-ℤ◌ american_from_probability
    new_american_odds wrap32 nearest_line clamp_probability wrap64 shorten_one_point rescaled
    runners_of tilt walk_back
moved = refl

-- Two runners of an overround of 1.05, the first below its floor of a half.
abbrev two_runners : List (Runner ℤ)
two_runners =
    record { probability = pos 400_000_000; lowest = pos 500_000_000; clamped = false }
    ∷ record { probability = pos 650_000_000; lowest = pos 500_000_000; clamped = false }
    ∷ []

apply_drift_floors-IsSettled_example :
    (apply_drift_floors fixed (3 + 1) two_runners (pos 1_050_000_000)
      ≡ apply_drift_floors fixed 3 two_runners (pos 1_050_000_000))
    × All AtFloor (apply_drift_floors fixed 3 two_runners (pos 1_050_000_000))
apply_drift_floors-IsSettled_example =
    apply_drift_floors-IsSettled fixed two_runners (pos 1_050_000_000) 1 (inl refl, (inl refl, tt))
