-- ===== src/Betting/Parlay/Price.antt =====
-- internal/betting/parlayprice.go: the price of a parlay.
use go_book.Base.{List, [], length, ltb, ◌||◌, ◌∷◌}
use go_book.Base.Int.{ltb_ℤ, pos, ℤ}
use go_book.Base.Result.{Result, fail_if, ok, ◌>>=◌, ◌>>◌}
use go_book.Betting.Errors.{
  Error, from_ledger, invalid, parlay_too_few_legs, parlay_too_many_legs, parlay_too_short,
}
use go_book.Ledger.Odds.{AmericanOdds, validate_odds}
use go_book.Pricing.Floats.{Floats}
use go_book.Pricing.Line.{american_from_probability, implied_probability, whole}

module _ {F : Type 0} (fl : Floats F) where
  -- The product of the probabilities that the legs imply.
  unfoldable pub legs_probability : List AmericanOdds → F → Result Error F
  legs_probability [] probability = ok probability
  legs_probability (leg ∷ legs) probability = do
    from_ledger (validate_odds leg)
    legs_probability legs (fl.mul probability (implied_probability fl leg))

  -- One unit of extra margin for each leg beyond the first.
  unfoldable pub juiced : List AmericanOdds → F → F → F
  juiced [] unit_margin probability = probability
  juiced (_ ∷ legs) unit_margin probability =
      juiced legs unit_margin (fl.mul probability unit_margin)

  abbrev tail : List AmericanOdds → List AmericanOdds
  tail [] = []
  tail (_ ∷ legs) = legs

  -- `ParlayOddsFor`
  unfoldable pub parlay_odds_for : List AmericanOdds → ℤ → Result Error AmericanOdds
  parlay_odds_for legs juice_basis_points = do
    fail_if (ltb (length legs) 2) parlay_too_few_legs
    fail_if (ltb 8 (length legs)) parlay_too_many_legs
    fail_if (ltb_ℤ juice_basis_points (pos 0)) invalid
    implied ← legs_probability legs (whole fl 1)
    let unit_margin = fl.add (whole fl 1) (fl.div (fl.of_int juice_basis_points) (whole fl 10_000))
    let probability = juiced (tail legs) unit_margin implied
    fail_if (fl.le probability (whole fl 0) || fl.le (whole fl 1) probability) parlay_too_short
    odds ← from_ledger (american_from_probability fl probability)
    fail_if (ltb_ℤ odds (pos 100)) parlay_too_short
    ok odds
