-- ===== src/Betting/Parlay/Graded.antt =====
-- What the grade of a parlay is.
use go_book.Base.{All, List, [], arith, inr, length, some, sym, ◌++◌, ◌==◌, ◌∷◌, ◌≡◌, ◌⊎◌}
use go_book.Base.Int.{ℤ}
use go_book.Base.Result.{>>=-eq-ok, fail_if, ok}
use go_book.Betting.Errors.{invalid}
use go_book.Betting.Legs.{paid}
use go_book.Betting.Parlay.Grade.{
  ParlayOutcome, Verdict, grade_parlay, grade_survivors, grade_verdict, leg_lost, no_money,
  scan_legs, surviving_price, survivors,
}
use go_book.Betting.Parlay.Place.{Parlay, ParlayLeg}
use go_book.Betting.Parlay.Price.{parlay_odds_for}
use go_book.Betting.Types.{result_loss, result_push, result_void, result_win}
use go_book.Ledger.Money.{add}
use go_book.Ledger.Odds.{AmericanOdds, profit}
use go_book.Pricing.Floats.{Floats}
use mathlib.Core.Path.{subst}
use mathlib.Core.List.{append_assoc, append-nil}

abbrev IsLostLeg : ParlayLeg → Type 0
IsLostLeg l = l.result ≡ some result_loss

-- A push or a void.
abbrev IsOffLeg : ParlayLeg → Type 0
IsOffLeg l = (l.result ≡ some result_push) ⊎ (l.result ≡ some result_void)

abbrev pub AnyLost : List ParlayLeg → Type 0
AnyLost [] = ⊥
AnyLost (l ∷ ls) = IsLostLeg l ⊎ AnyLost ls

abbrev pub AllGood : List ParlayLeg → Type 0
AllGood = All λ l. (l.result ≡ some result_win) ⊎ IsOffLeg l

-- The prices of the ls that won, in their order.
abbrev winners : List ParlayLeg → List AmericanOdds
winners [] = []
winners (l ∷ ls) = elim l.result [ some result_win ↦ l.accepted_odds ∷ winners ls | _ ↦ winners ls ]

abbrev IsVerdict : List ParlayLeg → List AmericanOdds → Verdict → Type 0
IsVerdict ls before leg_lost = AnyLost ls
IsVerdict ls before (survivors os) = AllGood ls × (os ≡ before ++ winners ls)

scan_legs-IsVerdict :
    (ls : List ParlayLeg) (before : List AmericanOdds) (v : Verdict)
    → scan_legs ls before ≡ ok v
    → IsVerdict ls before v
unfolding scan_legs
scan_legs-IsVerdict [] before (survivors os) h = ground (arith, append-nil before)
scan_legs-IsVerdict [] before leg_lost h = cc
scan_legs-IsVerdict (l ∷ ls) before leg_lost h = ground (
  arith,
  scan_legs-IsVerdict ls before leg_lost,
  scan_legs-IsVerdict ls (before ++ l.accepted_odds ∷ []) leg_lost,
)
scan_legs-IsVerdict (l ∷ ls) before (survivors os) h = ground (
  arith,
  scan_legs-IsVerdict ls before (survivors os),
  scan_legs-IsVerdict ls (before ++ l.accepted_odds ∷ []) (survivors os),
  append_assoc before (l.accepted_odds ∷ []) (winners ls),
)

module _ {F : Type 0} (fl : Floats F) where
  -- The price at which the winning legs are paid: the price of a single one, else the combined price.
  abbrev IsPaidAt : List AmericanOdds → ℤ → AmericanOdds → Type 0
  IsPaidAt [] juice o = ⊥
  IsPaidAt (only ∷ []) juice o = o ≡ only
  IsPaidAt os juice o = parlay_odds_for fl os juice ≡ ok o

  module _ (p : Parlay) (juice : ℤ) where
    pub record IsLost (o : ParlayOutcome) : Type 0 where
      pub is_loss : o.result ≡ result_loss
      pub a_leg_lost : AnyLost p.legs
      pub wins_nothing : o.profit ≡ no_money p
      pub returns_nothing : o.returns ≡ no_money p

    pub record IsOff (o : ParlayOutcome) : Type 0 where
      pub is_push : o.result ≡ result_push
      pub none_lost : AllGood p.legs
      pub none_won : winners p.legs ≡ []
      pub wins_nothing : o.profit ≡ no_money p
      pub returns_stake : o.returns ≡ p.stake

    pub record IsWon (o : ParlayOutcome) : Type 0 where
      pub is_win : o.result ≡ result_win
      pub none_lost : AllGood p.legs
      pub paid_at : IsPaidAt (winners p.legs) juice o.odds
      pub priced : profit o.odds p.stake ≡ ok o.profit
      pub returns_both : add p.stake o.profit ≡ ok o.returns

    abbrev Pays : List AmericanOdds → ParlayOutcome → Type 0
    Pays os o =
        (o.stake ≡ p.stake)
        × (o.result ≡ result_win)
        × IsPaidAt os juice o.odds
        × (profit o.odds p.stake ≡ ok o.profit)
        × (add p.stake o.profit ≡ ok o.returns)

    survivors_pay :
        (one : AmericanOdds) (os : List AmericanOdds) {o : ParlayOutcome}
        → grade_survivors fl p juice (one ∷ os) ≡ ok o
        → Pays (one ∷ os) o
    unfolding grade_survivors surviving_price
    survivors_pay one [] h = ground arith
    survivors_pay one (two ∷ os) h = ground arith

    survivors_lem :
        (os : List AmericanOdds) {o : ParlayOutcome}
        → AllGood p.legs
        → os ≡ winners p.legs
        → grade_survivors fl p juice os ≡ ok o
        → (o.stake ≡ p.stake) × (IsOff o ⊎ IsWon o)
    unfolding grade_survivors
    survivors_lem [] {o} good e h = let same = sym e in ground arith
    survivors_lem (one ∷ os) {o} good e h =
        let (staked, won, paid, priced, back) = survivors_pay one os h in
        (
          staked,
          inr (record {
            is_win = won;
            none_lost = good;
            paid_at = subst (λ ws. IsPaidAt ws juice o.odds) (e) paid;
            priced = priced;
            returns_both = back;
          }),
        )

    by_verdict :
        (v : Verdict) {o : ParlayOutcome}
        → IsVerdict p.legs [] v
        → grade_verdict fl p juice v ≡ ok o
        → (o.stake ≡ p.stake) × (IsLost o ⊎ IsOff o ⊎ IsWon o)
    unfolding grade_verdict
    by_verdict leg_lost lost h = ground arith
    by_verdict (survivors os) (good, e) h =
        let (same, either) = survivors_lem os good e h in (same, inr either)

    -- A grade that succeeds is one of three, and the stake is that of the parlay. A leg lost: nothing
    -- comes back. Else all legs won, pushed or were void: with none that won the stake comes back, and
    -- with one or more the parlay pays the stake and the profit on it, at the price of the only leg that
    -- won or at the price that the winning legs combine to.
    pub grade_parlay-IsGraded :
        {o : ParlayOutcome}
        → grade_parlay fl p juice ≡ ok o
        → (o.stake ≡ p.stake) × (IsLost o ⊎ IsOff o ⊎ IsWon o)
    unfolding grade_parlay
    grade_parlay-IsGraded {o} h =
        let (_, _, rest) = >>=-eq-ok (fail_if (length p.legs == 0) invalid) _ h in
        let (v, scanned, last) = >>=-eq-ok (scan_legs p.legs []) _ rest in
        by_verdict v (scan_legs-IsVerdict p.legs [] v scanned) last
