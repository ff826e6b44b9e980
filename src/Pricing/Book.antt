-- ===== src/Pricing/Book.antt =====
-- `Reprice` as a whole.
use go_book.Base.{All, List, length, ◌<◌, ◌≡◌, ◌≤◌}
use go_book.Base.Int.{pos, ℤ, ◌<ℤ◌, ◌≤ℤ◌}
use go_book.Base.Result.{Result, err, ok}
use go_book.Ledger.Money.{invalid_american_odds}
use go_book.Ledger.Odds.{AmericanOdds}
use go_book.Pricing.Bounds.{IsLine}
use go_book.Pricing.Floats.{Floats}
use go_book.Pricing.Lengths.{IsInput}
use go_book.Pricing.Line.{whole}
use go_book.Pricing.Reprice.{
  PricingError, SelectionInput, drift_floors, liquidity_not_positive, negative_stake, of_odds,
  priors_of, repriced_runners, too_few_selections,
}
use go_book.Pricing.Repriced.{AllFollowed}

module _ {F : Type 0} (fl : Floats F) where
  module _ (ss : List SelectionInput) (liquidity : ℤ) where
    -- The lines of a book that is repriced.
    pub record IsBook (lines : List AmericanOdds) : Type 0 where
      pub two_at_least : 2 ≤ length ss
      pub liquid : pos 0 <ℤ liquidity
      pub inputs : All IsInput ss
      pub one_each : length lines ≡ length ss
      pub all_lines : All IsLine lines
      pub priors : List F
      pub overround : F
      pub priors_are : priors_of fl ss (whole fl 0) ≡ ok (priors, overround)
      pub followed :
          AllFollowed fl
            (repriced_runners fl ss liquidity priors overround)
            (drift_floors fl priors overround)
            lines

    abbrev pub IsRepriced : Result PricingError (List AmericanOdds) → Type 0
    IsRepriced (ok lines) = IsBook lines
    IsRepriced (err too_few_selections) = length ss < 2
    IsRepriced (err liquidity_not_positive) = (2 ≤ length ss) × (liquidity ≤ℤ pos 0)
    IsRepriced (err negative_stake) = ¬ All IsInput ss
    IsRepriced (err (of_odds invalid_american_odds)) = ¬ All IsInput ss
    IsRepriced (err _) = ⊥
