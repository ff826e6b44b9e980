-- ===== src/Betting/Parlay/Grade.antt =====
-- internal/betting/parlay.go: grading a parlay once its legs are in.
use go_book.Base.{List, [], length, some, ◌++◌, ◌==◌, ◌∷◌}
use go_book.Base.Int.{pos, ℤ}
use go_book.Base.Result.{Result, err, fail_if, ok, ◌>>=◌, ◌>>◌}
use go_book.Betting.Errors.{Error, from_ledger, invalid}
use go_book.Betting.Parlay.Place.{Parlay, ParlayLeg}
use go_book.Betting.Parlay.Price.{parlay_odds_for}
use go_book.Betting.Types.{SettlementResult, result_loss, result_push, result_void, result_win}
use go_book.Ledger.Money.{Money, add}
use go_book.Ledger.Odds.{AmericanOdds}
use go_book.Pricing.Floats.{Floats}
use go_book.Ledger.Odds

pub record ParlayOutcome : Type 0 where
  pub result : SettlementResult
  pub odds : AmericanOdds
  pub stake : Money
  pub profit : Money
  pub returns : Money

-- How the loop over the legs ends.
pub data Verdict : Type 0 where
  leg_lost : Verdict
  survivors : List AmericanOdds → Verdict

-- The loop: the prices of the winning legs so far.
unfoldable pub scan_legs : List ParlayLeg → List AmericanOdds → Result Error Verdict
scan_legs [] surviving = ok (survivors surviving)
scan_legs (leg ∷ legs) surviving = elim leg.result [
  | some result_win ↦ scan_legs legs (surviving ++ leg.accepted_odds ∷ [])
  | some result_loss ↦ ok leg_lost
  | some result_push ↦ scan_legs legs surviving
  | some result_void ↦ scan_legs legs surviving
  | _ ↦ err invalid
]

abbrev pub no_money : Parlay → Money
no_money p = record { cents = pos 0; currency = p.stake.currency }

module _ {F : Type 0} (fl : Floats F) where
  unfoldable pub surviving_price : List AmericanOdds → ℤ → Result Error AmericanOdds
  surviving_price (odds ∷ []) juice_basis_points = ok odds
  surviving_price surviving juice_basis_points = parlay_odds_for fl surviving juice_basis_points

  unfoldable pub grade_survivors : Parlay → ℤ → List AmericanOdds → Result Error ParlayOutcome
  grade_survivors p juice_basis_points [] = ok (record {
    result = result_push;
    odds = p.accepted_odds;
    stake = p.stake;
    profit = no_money p;
    returns = p.stake;
  })
  grade_survivors p juice_basis_points surviving = do
    price ← surviving_price surviving juice_basis_points
    won ← from_ledger (Odds.profit price p.stake)
    back ← from_ledger (add p.stake won)
    ok (record { result = result_win; odds = price; stake = p.stake; profit = won; returns = back })

  unfoldable pub grade_verdict : Parlay → ℤ → Verdict → Result Error ParlayOutcome
  grade_verdict p juice_basis_points leg_lost = ok (record {
    result = result_loss;
    odds = p.accepted_odds;
    stake = p.stake;
    profit = no_money p;
    returns = no_money p;
  })
  grade_verdict p juice_basis_points (survivors surviving) =
      grade_survivors p juice_basis_points surviving

  -- `GradeParlay`
  unfoldable pub grade_parlay : Parlay → ℤ → Result Error ParlayOutcome
  grade_parlay p juice_basis_points = do
    fail_if (length p.legs == 0) invalid
    verdict ← scan_legs p.legs []
    grade_verdict p juice_basis_points verdict
