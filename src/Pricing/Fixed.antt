-- ===== src/Pricing/Fixed.antt =====
-- An arithmetic for the examples in the place of `float64`: fixed-point numbers with nine decimals.
use go_book.Base.{if◌then◌else◌}
use go_book.Base.Int.{leb_ℤ, ltb_ℤ, neg, pos, quot, ℤ, ◌*ℤ◌, ◌+ℤ◌, ◌-ℤ◌}
use go_book.Pricing.Floats.{Floats}

abbrev unit : ℤ
unit = pos 1_000_000_000

abbrev fixed_mul : ℤ → ℤ → ℤ
fixed_mul a b = quot (a *ℤ b) unit

-- The first terms of the series.
abbrev fixed_exp : ℤ → ℤ
fixed_exp a =
    unit +ℤ a +ℤ quot (fixed_mul a a) (pos 2) +ℤ quot (fixed_mul a (fixed_mul a a)) (pos 6)

abbrev pub fixed : Floats ℤ
fixed = record {
  of_int = λ n. n *ℤ unit;
  add = λ a b. a +ℤ b;
  sub = λ a b. a -ℤ b;
  mul = fixed_mul;
  div = λ a b. quot (a *ℤ unit) b;
  negate = neg;
  lt = ltb_ℤ;
  le = leb_ℤ;
  exp = fixed_exp;
  round_int = λ a.
      if ltb_ℤ a (pos 0)
      then neg (quot (neg a +ℤ pos 500_000_000) unit)
      else quot (a +ℤ pos 500_000_000) unit;
}
