-- ===== src/Pricing/Lengths.antt =====
-- Every loop of `Reprice` keeps one entry for each selection.
use go_book.Base.{
  All, Bool, Bool-cases, List, [], arith, false, inl, inr, length, map, not, refl, suc, zero, ℕ,
  ◌||◌, ◌∙◌, ◌∷◌, ◌≡◌,
}
use go_book.Base.Int.{pos, ◌≤ℤ◌}
use go_book.Base.Result.{Result, Result-cases, err, ok}
use go_book.Ledger.Money.{invalid_american_odds}
use go_book.Ledger.Odds.{validate_odds}
use go_book.Pricing.Floats.{Floats}
use go_book.Pricing.Line.{implied_probability, whole}
use go_book.Pricing.Reprice.{
  PricingError, Runner, SelectionInput, apply_drift_floors, negative_stake, of_odds, one_pass,
  priors_of, rescaled, runners_of, tilt, weights_of,
}
use mathlib.Core.Path.{subst}

pub length-map {ℓ κ} :
    {A : Type ℓ} {B : Type κ} (f : A → B) (xs : List A) → length (map f xs) ≡ length xs
length-map f [] = refl
length-map f (_ ∷ xs) = omega (arith, length-map f xs)

pub record IsInput (s : SelectionInput) : Type 0 where
  pub priced : validate_odds s.opening_odds ≡ ok tt
  pub staked : pos 0 ≤ℤ s.stake_cents

-- What the loop over the inputs finds: a prior for each, or an input that it refuses.
abbrev pub IsPriors : {F : Type 0} → List SelectionInput → Result PricingError (List F × F) → Type 0
IsPriors ss (ok found) = (length found.0 ≡ length ss) × All IsInput ss
IsPriors ss (err negative_stake) = ¬ All IsInput ss
IsPriors ss (err (of_odds invalid_american_odds)) = ¬ All IsInput ss
IsPriors ss (err _) = ⊥

module _ {F : Type 0} (fl : Floats F) where
  pub priors_of-IsPriors :
      (ss : List SelectionInput) (overround : F) → IsPriors ss (priors_of fl ss overround)
  unfolding priors_of validate_odds
  priors_of-IsPriors [] overround = (refl, tt)
  priors_of-IsPriors (s ∷ ss) overround =
      let next = fl.add overround (implied_probability fl s.opening_odds) in
      let ih = priors_of-IsPriors ss next in
      elim (Result-cases (priors_of fl ss next)) [
        | inl (r, e) ↦ rw e (let found = subst (IsPriors ss) (e) ih in ground arith)
        | inr (x, e) ↦ rw e (let bad = subst (IsPriors ss) (e) ih in ground arith)
      ]

  pub length-weights :
      (liquidity : F) (ss : List SelectionInput) (ps : List F) (sum : F)
      → length ps ≡ length ss
      → length (weights_of fl liquidity ss ps sum).0 ≡ length ss
  unfolding weights_of
  length-weights liquidity [] ps sum e = refl
  length-weights liquidity (s ∷ ss) [] sum e = absurd (omega (arith, e))
  length-weights liquidity (s ∷ ss) (p ∷ ps) sum e =
      omega (arith, length-weights liquidity ss ps (fl.add sum (tilt fl liquidity s p)))

  length-one_pass :
      (rs : List (Runner F)) (fixed free : F) (newly : Bool)
      → length (one_pass fl rs fixed free newly).runners ≡ length rs
  unfolding one_pass
  length-one_pass [] fixed free newly = refl
  length-one_pass (r ∷ rs) fixed free newly = omega (arith, length-one_pass rs _ _ _)

  pub length-rounds :
      (passes : ℕ) (rs : List (Runner F)) (overround : F)
      → length (apply_drift_floors fl passes rs overround) ≡ length rs
  unfolding apply_drift_floors
  length-rounds zero rs overround = refl
  length-rounds (suc passes) rs overround =
      let p = one_pass fl rs (whole fl 0) (whole fl 0) false in
      let scale = fl.div (fl.sub overround p.fixed) p.free in
      let once = length-one_pass rs (whole fl 0) (whole fl 0) false in
      let next =
        length-rounds passes (map (rescaled fl scale) p.runners) overround
        ∙ length-map (rescaled fl scale) p.runners in
      elim (Bool-cases (not p.newly_clamped || fl.le p.free (whole fl 0))) [
        | inl over ↦ rw over once
        | inr on ↦ rw on (next ∙ once)
      ]

  pub length-runners :
      (ps fs : List F) → length ps ≡ length fs → length (runners_of fl ps fs) ≡ length ps
  unfolding runners_of
  length-runners [] fs e = refl
  length-runners (p ∷ ps) [] e = absurd (omega (arith, e))
  length-runners (p ∷ ps) (f ∷ fs) e = omega (arith, length-runners ps fs (omega (arith, e)))
