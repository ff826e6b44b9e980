-- ===== src/Legacy/Parse.antt =====
-- internal/migration/legacybook/reconcile.go: reading amounts, odds, results and roles. `strings.ToLower`
-- is a parameter. An error is `none`; its message is left out.
use go_book.Base.{
  Bool, List, Option, [], false, if◌then◌else◌, leb, ltb, none, not, some, true, ℕ, ◌&&◌, ◌*◌, ◌+◌,
  ◌-◌, ◌/◌, ◌==◌, ◌^◌, ◌||◌, ◌∷◌,
}
use go_book.Base.Int.{leb_ℤ, neg, negsuc, pos, ℤ}
use go_book.Base.Text.{Text, all_digits, codes, is_digit, text_eq, trim_space}

-- The digits of `strconv.ParseInt` in base 10, after those that have been read.
unfoldable pub digits_from : ℕ → Text → Option ℕ
digits_from n [] = some n
digits_from n (c ∷ s) =
    let rest = digits_from (n * 10 + (c - b'0')) s in if is_digit c then rest else none

unfoldable pub digits : Text → Option ℕ
digits [] = none
digits (c ∷ s) = digits_from 0 (c ∷ s)

-- A sign and the rest; the sign is negative where it is true.
unfoldable pub strip_sign : Text → Bool × Text
strip_sign [] = (false, [])
strip_sign (c ∷ s) =
    if c == b'-' then (true, s) else if c == b'+' then (false, s) else (false, c ∷ s)

-- The range of an integer whose least value is the negation of `limit`.
unfoldable pub in_range : ℕ → Bool → ℕ → Option ℤ
in_range limit true n = if leb n limit then some (neg (pos n)) else none
in_range limit false n = if ltb n limit then some (pos n) else none

unfoldable pub parse_int : ℕ → Text → Option ℤ
parse_int limit s =
    let signed = strip_sign s in
    elim (digits signed.1) [ none ↦ none | some n ↦ in_range limit signed.0 n ]

-- `strings.Split(raw, ".")`; the first part is the head.
unfoldable pub split_dots : Text → Text × List Text
split_dots [] = ([], [])
split_dots (c ∷ s) =
    let rest = split_dots s in if c == b'.' then ([], rest.0 ∷ rest.1) else (c ∷ rest.0, rest.1)

unfoldable pub all_zeros : Text → Bool
all_zeros [] = true
all_zeros (c ∷ s) = c == b'0' && all_zeros s

-- The digits after the second.
unfoldable pub beyond_cents : Text → Text
beyond_cents (_ ∷ _ ∷ s) = s
beyond_cents _ = []

-- The fraction, padded or cut to two digits.
unfoldable pub cents_part : Text → ℕ
cents_part [] = 0
cents_part (c ∷ []) = (c - b'0') * 10
cents_part (c ∷ d ∷ _) = (c - b'0') * 10 + (d - b'0')

-- `9223372036854775807`
abbrev most_cents : ℕ
most_cents = 9_223_372_036_854_775_807

unfoldable pub whole_cents : Bool → Option ℤ → Text → Option ℤ
whole_cents is_negative none fraction = none
whole_cents is_negative (some (negsuc _)) fraction = none
whole_cents is_negative (some (pos units)) fraction =
    let cents = pos (units * 100 + cents_part fraction) in
    if not (all_digits fraction) || not (all_zeros (beyond_cents fraction))
    then none
    else if ltb ((most_cents - cents_part fraction) / 100) units
    then none
    else some (if is_negative then neg cents else cents)

-- The parts at the dot.
unfoldable pub cents_of_parts : Bool → Text × List Text → Option ℤ
cents_of_parts is_negative ([], _) = none
cents_of_parts is_negative (c ∷ rest, []) =
    whole_cents is_negative (parse_int (2 ^ 63) (c ∷ rest)) []
cents_of_parts is_negative (c ∷ rest, fraction ∷ []) =
    whole_cents is_negative (parse_int (2 ^ 63) (c ∷ rest)) fraction
cents_of_parts is_negative (c ∷ rest, _ ∷ _ ∷ _) = none

-- `ParseCents`
unfoldable pub parse_cents : Text → Option ℤ
parse_cents value =
    let signed = strip_sign (trim_space value) in cents_of_parts signed.0 (split_dots signed.1)

abbrev is_american : ℤ → Bool
is_american odds = leb_ℤ odds (negsuc 99) || leb_ℤ (pos 100) odds

-- The range that `parseAmericanOdds` asks for.
unfoldable pub american_only : Option ℤ → Option ℤ
american_only none = none
american_only (some odds) = if is_american odds then some odds else none

unfoldable pub parse_american_odds : Text → Option ℤ
parse_american_odds value = american_only (parse_int (2 ^ 31) (trim_space value))

pub data WagerResult : Type 0 where
  won lost pushed : WagerResult

pub data TargetRole : Type 0 where
  member admin owner : TargetRole

module _ (to_lower : Text → Text) where
  -- `mapWagerResult`
  unfoldable pub map_wager_result : Text → Option WagerResult
  map_wager_result value =
      let name = to_lower (trim_space value) in
      if text_eq name (codes "win")
      then some won
      else if text_eq name (codes "lose") || text_eq name (codes "loss")
      then some lost
      else if text_eq name (codes "tie") || text_eq name (codes "push")
      then some pushed
      else none

  -- `MapRole`
  unfoldable pub map_role : Text → Option TargetRole
  map_role role =
      let name = to_lower (trim_space role) in
      if text_eq name (codes "user") || text_eq name (codes "member")
      then some member
      else if text_eq name (codes "admin")
      then some admin
      else if text_eq name (codes "root") || text_eq name (codes "owner")
      then some owner
      else none
