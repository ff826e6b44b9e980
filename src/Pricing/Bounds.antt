-- ===== src/Pricing/Bounds.antt =====
-- A line that the code computes is always a price that the book can post.
use go_book.Base.{Bool-cases, arith, if◌then◌else◌, inl, inr, ltb, suc, ◌-◌, ◌≡◌, ◌⊎◌}
use go_book.Base.Int.{ltb_ℤ, negsuc, pos, wrap32, wrap32_id, ℤ, ◌+ℤ◌, ◌-ℤ◌, ◌≤ℤ◌}
use go_book.Base.Result.{Result, err, ok}
use go_book.Ledger.Money.{LedgerError}
use go_book.Ledger.Odds.{AmericanOdds, new_american_odds, validate_odds}
use go_book.Pricing.Floats.{Floats}
use go_book.Pricing.Line.{
  american_from_probability, clamp_probability, max_odds, min_line, nearest_line, shorten_one_point,
}

-- A price from 100 to 10000 on either side.
abbrev pub IsLine : AmericanOdds → Type 0
IsLine o = (min_line ≤ℤ o) × (o ≤ℤ max_odds) × ((o ≤ℤ negsuc 99) ⊎ (pos 100 ≤ℤ o))

abbrev pub IsPosted : Result LedgerError AmericanOdds → Type 0
IsPosted (ok o) = IsLine o
IsPosted (err e) = ⊥

new_american_odds-posted : (z : ℤ) → IsLine z → new_american_odds (wrap32 z) ≡ ok z
unfolding new_american_odds validate_odds
new_american_odds-posted z h = rw (wrap32_id z (omega arith)) (ground arith)

module _ {F : Type 0} (fl : Floats F) where
  nearest_line-outer : (p : F) → (nearest_line fl p ≤ℤ negsuc 99) ⊎ (pos 100 ≤ℤ nearest_line fl p)
  unfolding nearest_line
  nearest_line-outer p = ground arith

  -- Whatever the probability is, infinite or not a number too, the line is a price from 100 to 10000
  -- on either side.
  pub american_from_probability-IsLine :
      (p : F) → (o : AmericanOdds) × (american_from_probability fl p ≡ ok o) × IsLine o
  unfolding american_from_probability
  american_from_probability-IsLine p =
      let value = nearest_line fl (clamp_probability fl p) in
      let outer = nearest_line-outer (clamp_probability fl p) in
      let low : ℤ = if ltb_ℤ max_odds value then max_odds else value in
      let o : ℤ = if ltb_ℤ low min_line then min_line else low in
      let line : IsLine o = ground arith in (o, new_american_odds-posted o line, line)

-- The lines in a row, the long prices above: +100 is next to -100.
abbrev pub rung : AmericanOdds → ℤ
rung o = if ltb_ℤ (pos 0) o then o -ℤ pos 99 else o +ℤ pos 100

-- The line `s` is the line `o` made one point shorter; only the shortest has none below it.
pub record IsShorter (o s : AmericanOdds) : Type 0 where
  pub line : IsLine s
  pub one_rung : (rung o ≡ rung s +ℤ pos 1) ⊎ ((o ≡ min_line) × (s ≡ o))

pub shorten_one_point-IsShorter :
    (o : AmericanOdds)
    → IsLine o
    → (s : AmericanOdds) × (shorten_one_point o ≡ ok s) × IsShorter o s
unfolding shorten_one_point new_american_odds validate_odds ◌-ℤ◌ ◌+ℤ◌
shorten_one_point-IsShorter (pos k) h = elim (Bool-cases (ltb 100 k)) [
  | inl e ↦ (pos (k - 1), ground arith, ground arith)
  | inr e ↦ (negsuc 99, ground arith, ground arith)
]
shorten_one_point-IsShorter (negsuc k) h = elim (Bool-cases (ltb k 9_999)) [
  | inl e ↦ (negsuc (suc k), ground arith, ground arith)
  | inr e ↦ (negsuc k, ground arith, ground arith)
]
