-- ===== src/Ledger/Profit.antt =====
-- The rounding of odds.go, against an independent formula: the whole cent nearest to the exact
-- winnings, half a cent going up.
use go_book.Base.{
  Bool-cases, arith, if◌then◌else◌, inl, inr, leb, suc, ℕ, ◌%◌, ◌*◌, ◌+◌, ◌/◌, ◌<◌, ◌↔◌, ◌≡◌, ◌≤◌,
  ◌⊎◌,
}
use go_book.Base.Int.{
  IsInt32, add64, max_int64, mul64, neg64, negsuc, pos, pos_part, quot, rem, wrap64, ℤ, ◌*ℤ◌, ◌+ℤ◌,
  ◌<ℤ◌, ◌≤ℤ◌,
}
use go_book.Base.Result.{Result, err, ok}
use go_book.Ledger.Money.{
  Currency, IsCurrency, LedgerError, Money, amount_overflow, invalid_american_odds,
  invalid_currency, invalid_stake, parse_currency, validate_currency,
}
use go_book.Ledger.Odds.{AmericanOdds, profit, rounded, validate_odds}
use mathlib.Core.Path.{subst}
use native.Mathlib.Nat.{
  div-eq_of_lt-le, div-add-mod, div-le_self, div-le_of_le-mul, div-mul-le_self, le-div_iff_mul-le,
}

-- The nearest whole number to p / d, a half going up.
abbrev nearest : ℕ → ℕ → ℕ
nearest p d = (2 * p + d) / (2 * d)

nearest-div :
    (p d q r : ℕ)
    → 0 < d
    → p ≡ d * q + r
    → r < d
    → nearest p d ≡ (if leb d (2 * r) then q + 1 else q)
nearest-div p d q r hd e hr = elim (Bool-cases (leb d (2 * r))) [
  | inl up ↦ rw up (div-eq_of_lt-le (2 * d) (ground arith) (ground arith))
  | inr down ↦ rw down (div-eq_of_lt-le (2 * d) (ground arith) (ground arith))
]

half_up : (d r : ℕ) → leb ((d + 1) / 2) r ≡ leb d (2 * r)
half_up d r = ground arith

add64_pos : (a b : ℕ) → a + b ≤ 9_223_372_036_854_775_807 → add64 (pos a) (pos b) ≡ pos (a + b)
unfolding ◌+ℤ◌ wrap64
add64_pos a b h = ground arith

mul64_pos : (a b : ℕ) → a * b ≤ 9_223_372_036_854_775_807 → mul64 (pos a) (pos b) ≡ pos (a * b)
unfolding ◌*ℤ◌ wrap64
mul64_pos a b h = ground arith

rounded_lem :
    (p d : ℕ)
    → 100 ≤ d
    → d ≤ 2_147_483_648
    → p ≤ 9_223_372_036_854_775_807
    → rounded (pos p) (pos d) ≡ ok (pos (nearest p d))
unfolding rounded quot rem
rounded_lem p d hd hd' hp =
    rw
      (
        add64_pos d 1 (omega arith),
        nearest-div p d (p / d) (p % d) (omega arith) (grind (arith, div-add-mod)) (omega arith),
      )
      (ground (arith, add64_pos (p / d) 1, half_up d (p % d), div-le_self p d, div-mul-le_self p d))

-- A win pays `odds_num / odds_den` of the stake.
abbrev odds_num : AmericanOdds → ℕ
odds_num (pos k) = k
odds_num (negsuc _) = 100

abbrev odds_den : AmericanOdds → ℕ
odds_den (pos _) = 100
odds_den (negsuc k) = suc k

pub currency-cases :
    (c : Currency) → (validate_currency c ≡ ok tt) ⊎ (validate_currency c ≡ err invalid_currency)
unfolding validate_currency parse_currency
currency-cases c = ground arith

-- What a profit must be, by how the computation ended.
abbrev pub IsProfit : AmericanOdds → Money → Result LedgerError Money → Type 0
IsProfit o stake (ok r) =
    (r.currency ≡ stake.currency)
    × (r.cents ≡ pos (nearest (pos_part stake.cents * odds_num o) (odds_den o)))
    × (pos_part stake.cents * odds_num o ≤ 9_223_372_036_854_775_807)
IsProfit o stake (err invalid_american_odds) = (negsuc 99 <ℤ o) × (o <ℤ pos 100)
IsProfit o stake (err invalid_currency) = ¬ IsCurrency stake.currency
IsProfit o stake (err invalid_stake) = stake.cents ≤ℤ pos 0
IsProfit o stake (err amount_overflow) =
    9_223_372_036_854_775_807 < pos_part stake.cents * odds_num o
IsProfit o stake (err _) = ⊥

-- The test `stake > MaxInt64 / numerator` asks whether the product fits.
product_fits :
    (s k : ℕ) → 0 < k → (s ≤ 9_223_372_036_854_775_807 / k) ↔ (s * k ≤ 9_223_372_036_854_775_807)
product_fits s k h = le-div_iff_mul-le h

profit_pos :
    (k : ℕ) (s : ℕ) (c : Currency)
    → k ≤ 2_147_483_647
    → IsProfit
        (pos k)
        (record { cents = pos s; currency = c })
        (profit (pos k) (record { cents = pos s; currency = c }))
unfolding profit quot validate_odds
profit_pos k s c hk = elim (currency-cases c) [
  | inl e ↦ rw e (ground (arith, product_fits s k, mul64_pos s k, rounded_lem (s * k) 100))
  | inr e ↦ rw e (ground arith)
]

neg64_negsuc : (k : ℕ) → k ≤ 2_147_483_647 → neg64 (negsuc k) ≡ pos (suc k)
unfolding wrap64
neg64_negsuc k h = ground arith

profit_neg :
    (k : ℕ) (s : ℕ) (c : Currency)
    → k ≤ 2_147_483_647
    → IsProfit
        (negsuc k)
        (record { cents = pos s; currency = c })
        (profit (negsuc k) (record { cents = pos s; currency = c }))
unfolding profit quot validate_odds
profit_neg k s c hk = elim (currency-cases c) [
  | inl e ↦
      rw (e, neg64_negsuc k hk)
        (ground (arith, product_fits s 100, mul64_pos s 100, rounded_lem (s * 100) (suc k)))
  | inr e ↦ rw e (ground arith)
]

profit_no_stake :
    (o : AmericanOdds) (s : ℕ) (c : Currency)
    → IsProfit o
        (record { cents = negsuc s; currency = c })
        (profit o (record { cents = negsuc s; currency = c }))
unfolding profit quot validate_odds
profit_no_stake o s c = elim (currency-cases c) [
  | inl e ↦ rw e (ground arith)
  | inr e ↦ rw e (ground arith)
]

by_sign :
    (o : AmericanOdds) (z : ℤ) (c : Currency)
    → IsInt32 o
    → IsProfit o
        (record { cents = z; currency = c })
        (profit o (record { cents = z; currency = c }))
by_sign (pos k) (pos s) c h = profit_pos k s c (omega arith)
by_sign (negsuc k) (pos s) c h = profit_neg k s c (omega arith)
by_sign o (negsuc s) c h = profit_no_stake o s c

-- For every price and stake: the winnings are the stake times the price, to the nearest cent with
-- half a cent going up, and no product of the computation wraps around; the only refusals are a price
-- between -100 and +100, a bad currency, a stake that is not positive, and a product that does not
-- fit an int64.
pub profit-IsProfit :
    (o : AmericanOdds) (stake : Money) → IsInt32 o → IsProfit o stake (profit o stake)
profit-IsProfit o stake h = by_sign o stake.cents stake.currency h

pub profit-eq :
    (o : AmericanOdds) (stake : Money) {r : Money}
    → IsInt32 o
    → profit o stake ≡ ok r
    → IsProfit o stake (ok r)
profit-eq o stake h e = subst (IsProfit o stake) e (profit-IsProfit o stake h)

profit-num :
    (o : AmericanOdds) (stake : Money) {r : Money} → profit o stake ≡ ok r → 100 ≤ odds_num o
unfolding profit validate_odds
profit-num (pos k) stake e = ground arith
profit-num (negsuc k) stake e = ground arith

-- A stake that has a profit is far below the limit of int64.
pub profit-stake_bound :
    (o : AmericanOdds) (stake : Money) {r : Money}
    → IsInt32 o
    → profit o stake ≡ ok r
    → stake.cents ≤ℤ pos 92_233_720_368_547_758
profit-stake_bound o stake h e = grind (arith, profit-num o stake e, (profit-eq o stake h e).2)

odds_den-ge :
    (o : AmericanOdds) (stake : Money) {r : Money} → profit o stake ≡ ok r → 100 ≤ odds_den o
unfolding profit validate_odds
odds_den-ge (pos k) stake e = ground arith
odds_den-ge (negsuc k) stake e = ground arith

nearest-le :
    (p d : ℕ) → 100 ≤ d → p ≤ 9_223_372_036_854_775_807 → nearest p d ≤ 9_223_372_036_854_775_807
nearest-le p d hd hp = div-le_of_le-mul (2 * d) (omega arith)

-- A profit is never negative, and is an int64.
pub profit-nonneg :
    (o : AmericanOdds) (stake : Money) {r : Money}
    → IsInt32 o
    → profit o stake ≡ ok r
    → (pos 0 ≤ℤ r.cents) × (r.cents ≤ℤ max_int64)
profit-nonneg o stake h e =
    let (_, amount, fits) = profit-eq o stake h e in
    rw amount (omega (arith, nearest-le _ _ (odds_den-ge o stake e) fits))
