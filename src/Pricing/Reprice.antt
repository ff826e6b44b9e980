-- ===== src/Pricing/Reprice.antt =====
-- internal/pricing/pricing.go: `Reprice`.
use go_book.Base.{
  Bool, List, [], false, if◌then◌else◌, length, ltb, map, not, suc, true, zero, ℕ, ◌&&◌, ◌||◌, ◌∷◌,
}
use go_book.Base.Int.{eqb_ℤ, leb_ℤ, ltb_ℤ, pos, ℤ}
use go_book.Base.Result.{Result, err, fail_if, ok, ◌>>=◌, ◌>>◌}
use go_book.Ledger.Money.{LedgerError}
use go_book.Ledger.Odds.{AmericanOdds, validate_odds}
use go_book.Pricing.Floats.{Floats}
use go_book.Pricing.Line.{american_from_probability, implied_probability, shorten_one_point, whole}

pub data PricingError : Type 0 where
  too_few_selections liquidity_not_positive negative_stake : PricingError
  of_odds : LedgerError → PricingError

abbrev from_odds {ℓ} : {A : Type ℓ} → Result LedgerError A → Result PricingError A
from_odds (ok a) = ok a
from_odds (err e) = err (of_odds e)

pub record SelectionInput : Type 0 where
  pub opening_odds : AmericanOdds
  pub stake_cents : ℤ

-- One selection in the loops of `applyDriftFloors`: the slices `probabilities`, `floors` and `clamped`
-- at its index.
pub record Runner (F : Type 0) : Type 0 where
  pub probability : F
  pub lowest : F
  pub clamped : Bool

-- What one pass over the selections leaves behind.
pub record Pass (F : Type 0) : Type 0 where
  pub runners : List (Runner F)
  pub fixed : F
  pub free : F
  pub newly_clamped : Bool

module _ {F : Type 0} (fl : Floats F) where
  -- The loop over the priors; the second result is the overround.
  unfoldable pub priors_of : List SelectionInput → F → Result PricingError (List F × F)
  priors_of [] overround = ok ([], overround)
  priors_of (s ∷ ss) overround = do
    from_odds (validate_odds s.opening_odds)
    fail_if (ltb_ℤ s.stake_cents (pos 0)) negative_stake
    let prior = implied_probability fl s.opening_odds
    rest ← priors_of ss (fl.add overround prior)
    ok (prior ∷ rest.0, rest.1)

  unfoldable pub tilt : F → SelectionInput → F → F
  tilt liquidity s prior =
      let exponent = fl.div (fl.of_int s.stake_cents) liquidity in
      let most = whole fl 40 in
      fl.mul prior (fl.exp (if fl.lt most exponent then most else exponent))

  -- The loop over the weights; the second result is their sum.
  unfoldable pub weights_of : F → List SelectionInput → List F → F → List F × F
  unfolding tilt
  weights_of liquidity (s ∷ ss) (p ∷ ps) sum =
      let weight = tilt liquidity s p in
      let rest = weights_of liquidity ss ps (fl.add sum weight) in (weight ∷ rest.0, rest.1)
  weights_of liquidity _ _ sum = ([], sum)

  -- `driftFloors`
  unfoldable pub drift_floors : List F → F → List F
  drift_floors priors overround =
      let spent =
        fl.mul (fl.div (fl.sub overround (whole fl 1)) overround)
          (fl.div (whole fl 8) (whole fl 10)) in
      let fraction = if fl.lt spent (whole fl 0) then whole fl 0 else spent in
      map (λ prior. fl.mul prior (fl.sub (whole fl 1) fraction)) priors

  unfoldable pub one_pass : List (Runner F) → F → F → Bool → Pass F
  one_pass [] fixed free newly = record {
    runners = [];
    fixed = fixed;
    free = free;
    newly_clamped = newly;
  }
  one_pass (r ∷ rs) fixed free newly =
      let falls = not r.clamped && fl.lt r.probability r.lowest in
      let held = r.clamped || falls in
      let rest =
        one_pass rs (if held then fl.add fixed r.lowest else fixed)
          (if held then free else fl.add free r.probability) (newly || falls) in
      record rest {
        runners =
            (if falls then record r { probability = r.lowest; clamped = true } else r)
            ∷ rest.runners;
      }

  unfoldable pub rescaled : F → Runner F → Runner F
  rescaled scale r = if r.clamped then r else record r { probability = fl.mul r.probability scale }

  -- `applyDriftFloors`: at most `passes` rounds.
  unfoldable pub apply_drift_floors : ℕ → List (Runner F) → F → List (Runner F)
  unfolding rescaled
  apply_drift_floors zero runners overround = runners
  apply_drift_floors (suc passes) runners overround =
      let p = one_pass runners (whole fl 0) (whole fl 0) false in
      let scale = fl.div (fl.sub overround p.fixed) p.free in
      let next = apply_drift_floors passes (map (rescaled scale) p.runners) overround in
      if not p.newly_clamped || fl.le p.free (whole fl 0) then p.runners else next

  -- The walk back to a price that clears the floor, of at most `steps` steps.
  unfoldable pub walk_back : ℕ → AmericanOdds → F → AmericanOdds
  walk_back zero odds lowest = odds
  walk_back (suc steps) odds lowest =
      if fl.lt (implied_probability fl odds) lowest
      then elim (shorten_one_point odds) [
        | err _ ↦ odds
        | ok shorter ↦ elim (eqb_ℤ shorter odds) [
          | true ↦ odds
          | false ↦ walk_back steps shorter lowest
        ]
      ]
      else odds

  -- The last loop of `Reprice`. `maxRoundingSteps` is 32.
  unfoldable pub lines_of : List (Runner F) → List F → Result PricingError (List AmericanOdds)
  lines_of (r ∷ rs) (lowest ∷ floors) = do
    odds ← from_odds (american_from_probability fl r.probability)
    rest ← lines_of rs floors
    ok (walk_back 32 odds lowest ∷ rest)
  lines_of _ _ = ok []

  unfoldable pub runners_of : List F → List F → List (Runner F)
  runners_of (p ∷ ps) (f ∷ fs) =
      record { probability = p; lowest = f; clamped = false } ∷ runners_of ps fs
  runners_of _ _ = []

  -- The tilted probabilities, lifted to their floors.
  unfoldable pub repriced_runners : List SelectionInput → ℤ → List F → F → List (Runner F)
  unfolding runners_of
  repriced_runners selections liquidity_cents priors overround =
      let weighed = weights_of (fl.of_int liquidity_cents) selections priors (whole fl 0) in
      let scale = fl.div overround weighed.1 in
      let probabilities = map (λ weight. fl.mul weight scale) weighed.0 in
      apply_drift_floors (suc (length probabilities))
        (runners_of probabilities (drift_floors priors overround)) overround

  -- `Reprice`
  unfoldable pub reprice : List SelectionInput → ℤ → Result PricingError (List AmericanOdds)
  reprice selections liquidity_cents = do
    fail_if (ltb (length selections) 2) too_few_selections
    fail_if (leb_ℤ liquidity_cents (pos 0)) liquidity_not_positive
    found ← priors_of selections (whole fl 0)
    let runners = repriced_runners selections liquidity_cents found.0 found.1
    lines_of runners (drift_floors found.0 found.1)
