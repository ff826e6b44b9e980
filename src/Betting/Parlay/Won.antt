-- ===== src/Betting/Parlay/Won.antt =====
-- A parlay whose legs all win is paid as it was struck.
use go_book.Base.{
  List, [], ap, arith, false, length, map, refl, some, ◌++◌, ◌==◌, ◌∙◌, ◌∷◌, ◌≡◌, ◌≤◌,
}
use go_book.Base.Int.{ℤ, ◌+ℤ◌}
use go_book.Base.Result.{ok}
use go_book.Betting.Parlay.Distinct.{AreLegs-pairs, pairs}
use go_book.Betting.Parlay.Grade.{
  ParlayOutcome, grade_parlay, grade_survivors, grade_verdict, scan_legs, surviving_price,
  survivors,
}
use go_book.Betting.Parlay.Place.{Parlay, ParlayLeg, PlaceParlayCommand, leg_odds, place_parlay}
use go_book.Betting.Parlay.Placed.{place_parlay-IsBounded, place_parlay_iff}
use go_book.Betting.Parlay.Price.{parlay_odds_for}
use go_book.Betting.Types.{Market, Selection, result_win}
use go_book.Ledger.Money.{add}
use go_book.Ledger.Odds.{AmericanOdds, profit}
use go_book.Ledger.Returns.{returned-fits}
use go_book.Pricing.Floats.{Floats}
use mathlib.Core.List.{append_assoc, append-nil}

-- The parlay with all its legs won.
abbrev won_leg : ParlayLeg → ParlayLeg
won_leg l = record l { result = some result_win }

abbrev pub all_won : Parlay → Parlay
all_won p = record p { legs = map won_leg p.legs }

scan_legs-won :
    (ls : List ParlayLeg) (before : List AmericanOdds)
    → scan_legs (map won_leg ls) before ≡ ok (survivors (before ++ leg_odds ls))
unfolding scan_legs
scan_legs-won [] before = rw (append-nil before) refl
scan_legs-won (l ∷ ls) before =
    scan_legs-won ls (before ++ l.accepted_odds ∷ [])
    ∙ ap (λ (os : List AmericanOdds). ok (survivors os))
        (append_assoc before (l.accepted_odds ∷ []) (leg_odds ls))

abbrev pub won_outcome : Parlay → ParlayOutcome
won_outcome p = record {
  result = result_win;
  odds = p.accepted_odds;
  stake = p.stake;
  profit = p.potential_profit;
  returns = record {
    cents = p.stake.cents +ℤ p.potential_profit.cents;
    currency = p.stake.currency;
  };
}

has_legs :
    (ls : List ParlayLeg) (one : AmericanOdds) (os : List AmericanOdds)
    → leg_odds ls ≡ one ∷ os
    → (length (map won_leg ls) == 0) ≡ false
has_legs [] one os e = cc
has_legs (l ∷ ls) one os e = ground arith

of_lists :
    (ms : List Market) (ss : List Selection)
    → length ms ≡ length ss
    → 2 ≤ length ms
    → (one : AmericanOdds) × (two : AmericanOdds) × (os : List AmericanOdds) × (leg_odds
          (pairs ms ss)
        ≡ one ∷ two ∷ os)
unfolding pairs
of_lists (m ∷ n ∷ ms) (s ∷ t ∷ ss) e h =
    (s.offered_odds, t.offered_odds, leg_odds (pairs ms ss), refl)
of_lists [] ss e h = absurd (omega arith)
of_lists (m ∷ []) ss e h = absurd (omega arith)
of_lists (m ∷ n ∷ ms) [] e h = absurd (omega (arith, e))
of_lists (m ∷ n ∷ ms) (s ∷ []) e h = absurd (omega (arith, e))

-- A command with two legs or more has the prices of two and more.
two_prices :
    (c : PlaceParlayCommand)
    → length c.markets ≡ length c.selections
    → 2 ≤ length c.markets
    → (one : AmericanOdds) × (two : AmericanOdds) × (os : List AmericanOdds) × (leg_odds
          (pairs c.markets c.selections)
        ≡ one ∷ two ∷ os)
two_prices c same many = of_lists c.markets c.selections same many

module _ {F : Type 0} (fl : Floats F) where
  graded :
      (p : Parlay) (juice : ℤ) (one two : AmericanOdds) (os : List AmericanOdds)
      → leg_odds p.legs ≡ one ∷ two ∷ os
      → parlay_odds_for fl (one ∷ two ∷ os) juice ≡ ok p.accepted_odds
      → profit p.accepted_odds p.stake ≡ ok p.potential_profit
      → add p.stake p.potential_profit ≡ ok (won_outcome p).returns
      → grade_parlay fl (all_won p) juice ≡ ok (won_outcome p)
  unfolding grade_parlay grade_verdict grade_survivors surviving_price
  graded p juice one two os prices e f g =
      rw (scan_legs-won p.legs [], prices, e, f, g, has_legs p.legs one (two ∷ os) prices) refl

  -- A parlay that was struck and whose legs have all won is graded at the juice it was struck at to
  -- exactly what was promised: a win at the accepted price with the potential profit, that returns the
  -- stake and the profit together; no step of it overflows.
  pub all_won-IsPaid :
      (c : PlaceParlayCommand) {p : Parlay}
      → place_parlay fl c ≡ ok p
      → grade_parlay fl (all_won p) c.juice_basis_points ≡ ok (won_outcome p)
  all_won-IsPaid c {p} h =
      let placed = (place_parlay_iff fl c p).0 h in
      let (one, two, os, prices) = two_prices c placed.ready.paired placed.ready.two_at_least in
      let stake = placed.snapshot.stake in
      let legs_are = ap leg_odds (AreLegs-pairs c.markets c.selections p.legs placed.legs_are) in
      let combined = rw (legs_are ∙ prices) at placed.combined in
      let bounded = place_parlay-IsBounded fl c h in
      let back =
        returned-fits p.accepted_odds c.stake bounded.price_from bounded.price_to
          placed.ready.positive placed.ready.currency_valid placed.priced in
      graded p c.juice_basis_points one two os (legs_are ∙ prices) combined (rw stake placed.priced)
        (rw stake back)
