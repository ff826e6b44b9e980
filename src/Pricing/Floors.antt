-- ===== src/Pricing/Floors.antt =====
-- The rounds of `applyDriftFloors`: they end by their own test, and what they clamp stands at its
-- floor.
use go_book.Base.{
  All, Bool, Bool-cases, List, [], ap, arith, false, if◌then◌else◌, inl, inr, length, map, not,
  refl, suc, true, zero, ℕ, ◌+◌, ◌<◌, ◌||◌, ◌∷◌, ◌≡◌, ◌≤◌, ◌⊎◌,
}
use go_book.Pricing.Floats.{Floats}
use go_book.Pricing.Line.{whole}
use go_book.Pricing.Reprice.{Runner, apply_drift_floors, one_pass, rescaled}
use native.Mathlib.Nat.{suc-add}

-- The selections that are not clamped yet.
abbrev free_count : {F : Type 0} → List (Runner F) → ℕ
free_count [] = 0
free_count (r ∷ rs) = (if r.clamped then 0 else 1) + free_count rs

-- A clamped selection stands at its floor.
abbrev pub AtFloor : {F : Type 0} → Runner F → Type 0
AtFloor r = (r.clamped ≡ false) ⊎ (r.probability ≡ r.lowest)

module _ {F : Type 0} (fl : Floats F) where
  one_pass-clamps :
      (rs : List (Runner F)) (fixed free : F) (newly : Bool)
      → let p = one_pass fl rs fixed free newly in
        (free_count p.runners ≤ free_count rs)
        × ((p.newly_clamped ≡ newly) ⊎ (free_count p.runners < free_count rs))
  unfolding one_pass
  one_pass-clamps [] fixed free newly = (omega arith, inl refl)
  one_pass-clamps (r ∷ rs) fixed free newly = ground (
    arith,
    one_pass-clamps rs (fl.add fixed r.lowest) free newly,
    one_pass-clamps rs (fl.add fixed r.lowest) free true,
    one_pass-clamps rs fixed (fl.add free r.probability) newly,
  )

  rescaled-keeps :
      (scale : F) (rs : List (Runner F)) → free_count (map (rescaled fl scale) rs) ≡ free_count rs
  unfolding rescaled
  rescaled-keeps scale [] = refl
  rescaled-keeps scale (r ∷ rs) = ground (arith, rescaled-keeps scale rs)

  -- More rounds than selections that are not clamped change nothing: the loop has ended by its test.
  rounds_enough :
      (passes more : ℕ) (rs : List (Runner F)) (overround : F)
      → free_count rs < passes
      → apply_drift_floors fl (passes + more) rs overround
        ≡ apply_drift_floors fl passes rs overround
  unfolding apply_drift_floors
  rounds_enough zero more rs overround h = absurd (omega arith)
  rounds_enough (suc passes) more rs overround h =
      let p = one_pass fl rs (whole fl 0) (whole fl 0) false in
      let scale = fl.div (fl.sub overround p.fixed) p.free in
      let (_, some_clamped) = one_pass-clamps rs (whole fl 0) (whole fl 0) false in
      elim (Bool-cases p.newly_clamped) [
        | inr over ↦ rw (suc-add passes more) (rw over refl)
        | inl more_clamped ↦ rw (suc-add passes more) (
            ap
              (λ next. if not p.newly_clamped || fl.le p.free (whole fl 0) then p.runners else next)
              (rounds_enough passes more (map (rescaled fl scale) p.runners) overround
                (ground (arith, rescaled-keeps scale p.runners))))
      ]

  one_pass-AtFloor :
      (rs : List (Runner F)) (fixed free : F) (newly : Bool)
      → All AtFloor rs
      → All AtFloor (one_pass fl rs fixed free newly).runners
  unfolding one_pass
  one_pass-AtFloor [] fixed free newly h = tt
  one_pass-AtFloor (r ∷ rs) fixed free newly h =
      (ground (arith, h.0), one_pass-AtFloor rs _ _ _ h.1)

  rescaled-AtFloor :
      (scale : F) (rs : List (Runner F)) → All AtFloor rs → All AtFloor (map (rescaled fl scale) rs)
  unfolding rescaled
  rescaled-AtFloor scale [] h = tt
  rescaled-AtFloor scale (r ∷ rs) h = (ground (arith, h.0), rescaled-AtFloor scale rs h.1)

  rounds-AtFloor :
      (passes : ℕ) (rs : List (Runner F)) (overround : F)
      → All AtFloor rs
      → All AtFloor (apply_drift_floors fl passes rs overround)
  unfolding apply_drift_floors
  rounds-AtFloor zero rs overround h = h
  rounds-AtFloor (suc passes) rs overround h =
      let p = one_pass fl rs (whole fl 0) (whole fl 0) false in
      let scale = fl.div (fl.sub overround p.fixed) p.free in
      let once = one_pass-AtFloor rs (whole fl 0) (whole fl 0) false h in
      let next =
        rounds-AtFloor passes (map (rescaled fl scale) p.runners) overround
          (rescaled-AtFloor scale p.runners once) in
      elim (Bool-cases (not p.newly_clamped || fl.le p.free (whole fl 0))) [
        | inl over ↦ rw over once
        | inr on ↦ rw on next
      ]

  free_count-le : (rs : List (Runner F)) → free_count rs ≤ length rs
  free_count-le [] = omega arith
  free_count-le (r ∷ rs) = ground (arith, free_count-le rs)

  -- Whatever the arithmetic does: one round for each selection and one more are enough for the lifting
  -- to the floors to end by its own test, so that further rounds change nothing, and every selection
  -- that is clamped at the end stands exactly at its floor.
  pub apply_drift_floors-IsSettled :
      (rs : List (Runner F)) (overround : F) (more : ℕ)
      → All AtFloor rs
      → (apply_drift_floors fl (suc (length rs) + more) rs overround
          ≡ apply_drift_floors fl (suc (length rs)) rs overround)
        × All AtFloor (apply_drift_floors fl (suc (length rs)) rs overround)
  apply_drift_floors-IsSettled rs overround more h = (
    rounds_enough (suc (length rs)) more rs overround (omega (arith, free_count-le rs)),
    rounds-AtFloor (suc (length rs)) rs overround h,
  )
