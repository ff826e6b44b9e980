-- ===== src/Pricing/Line.antt =====
-- internal/pricing/pricing.go: between American odds and the probability that they imply.
use go_book.Base.{if◌then◌else◌, ℕ}
use go_book.Base.Int.{eqb_ℤ, ltb_ℤ, neg64, negsuc, pos, wrap32, ℤ, ◌-ℤ◌}
use go_book.Base.Result.{Result, ok}
use go_book.Ledger.Money.{LedgerError}
use go_book.Ledger.Odds.{AmericanOdds, new_american_odds}
use go_book.Pricing.Floats.{Floats}

abbrev pub max_odds : ℤ
max_odds = pos 10_000

abbrev pub min_line : ℤ
min_line = negsuc 9_999

module _ {F : Type 0} (fl : Floats F) where
  abbrev pub whole : ℕ → F
  whole n = fl.of_int (pos n)

  -- `ImpliedProbability`
  unfoldable pub implied_probability : AmericanOdds → F
  implied_probability odds =
      let value = fl.of_int odds in
      if ltb_ℤ (pos 0) odds
      then fl.div (whole 100) (fl.add value (whole 100))
      else fl.div (fl.negate value) (fl.add (fl.negate value) (whole 100))

  -- The probability within what `MaxOdds` can express.
  unfoldable pub clamp_probability : F → F
  clamp_probability probability =
      let min_prob = fl.div (whole 100) (fl.add (whole 10_000) (whole 100)) in
      let max_prob = fl.div (whole 10_000) (fl.add (whole 10_000) (whole 100)) in
      let raised = if fl.lt probability min_prob then min_prob else probability in
      if fl.lt max_prob raised then max_prob else raised

  -- The two branches on a clamped probability, before the line is clamped.
  unfoldable pub nearest_line : F → ℤ
  nearest_line p =
      let one = whole 1 in
      if fl.le p (fl.div one (whole 2))
      then (let value = fl.round_int (fl.div (fl.mul (whole 100) (fl.sub one p)) p) in
          if ltb_ℤ value (pos 100) then pos 100 else value)
      else (let value = neg64 (fl.round_int (fl.div (fl.mul (whole 100) p) (fl.sub one p))) in
          if ltb_ℤ (negsuc 99) value then negsuc 99 else value)

  -- `AmericanFromProbability`
  unfoldable pub american_from_probability : F → Result LedgerError AmericanOdds
  american_from_probability probability =
      let value = nearest_line (clamp_probability probability) in
      let low = if ltb_ℤ max_odds value then max_odds else value in
      new_american_odds (wrap32 (if ltb_ℤ low min_line then min_line else low))

-- `shortenOnePoint`. The int32 is above -10000 wherever it is decremented.
unfoldable pub shorten_one_point : AmericanOdds → Result LedgerError AmericanOdds
shorten_one_point odds =
    if ltb_ℤ (pos 100) odds
    then new_american_odds (odds -ℤ pos 1)
    else if eqb_ℤ odds (pos 100)
    then new_american_odds (negsuc 99)
    else if ltb_ℤ min_line odds
    then new_american_odds (odds -ℤ pos 1)
    else ok odds
