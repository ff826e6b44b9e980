-- ===== src/Ledger/Odds.antt =====
-- internal/ledger/odds.go. American odds are an int32: an integer.
use go_book.Base.{if◌then◌else◌, ◌&&◌, ◌≡◌}
use go_book.Base.Int.{
  add64, eqb_ℤ, leb_ℤ, ltb_ℤ, max_int64, mul64, neg64, negsuc, pos, quot, rem, ℤ,
}
use go_book.Base.Result.{Result, fail_if, ok, ◌>>=◌, ◌>>◌}
use go_book.Ledger.Money.{
  LedgerError, Money, add, amount_overflow, invalid_american_odds, invalid_stake, validate_currency,
}

abbrev pub AmericanOdds : Type 0
AmericanOdds = ℤ

-- `AmericanOdds.Validate`
unfoldable pub validate_odds : AmericanOdds → Result LedgerError (Unit {0})
validate_odds o = fail_if (ltb_ℤ (negsuc 99) o && ltb_ℤ o (pos 100)) invalid_american_odds

unfoldable pub new_american_odds : ℤ → Result LedgerError AmericanOdds
new_american_odds value = do validate_odds value; ok value

abbrev numerator : AmericanOdds → ℤ
numerator o = if ltb_ℤ (pos 0) o then o else pos 100

abbrev denominator : AmericanOdds → ℤ
denominator o = if ltb_ℤ (pos 0) o then pos 100 else neg64 o

-- The division of `Profit`, half a cent rounded up, under its second guard.
unfoldable pub rounded : ℤ → ℤ → Result LedgerError ℤ
rounded product den =
    let profit = quot product den in
    if leb_ℤ (quot (add64 den (pos 1)) (pos 2)) (rem product den)
    then (fail_if (eqb_ℤ profit max_int64) amount_overflow >> ok (add64 profit (pos 1)))
    else ok profit

-- `AmericanOdds.Profit`
unfoldable pub profit : AmericanOdds → Money → Result LedgerError Money
profit o stake = do
  validate_odds o
  validate_currency stake.currency
  fail_if (leb_ℤ stake.cents (pos 0)) invalid_stake
  fail_if (ltb_ℤ (quot max_int64 (numerator o)) stake.cents) amount_overflow
  won ← rounded (mul64 stake.cents (numerator o)) (denominator o)
  ok (record { cents = won; currency = stake.currency })

-- `AmericanOdds.Return`
unfoldable pub returned : AmericanOdds → Money → Result LedgerError Money
returned o stake = do won ← profit o stake; add stake won

abbrev pub IsOdds : AmericanOdds → Type 0
IsOdds o = validate_odds o ≡ ok tt
