-- ===== src/Betting/Parlay/Priced.antt =====
-- What a combined price is.
use go_book.Base.{All, Bool-cases, List, [], arith, inl, inr, length, ltb, ◌<◌, ◌||◌, ◌∷◌, ◌≡◌, ◌≤◌}
use go_book.Base.Int.{ltb_ℤ, pos, ℤ, ◌<ℤ◌, ◌≤ℤ◌}
use go_book.Base.Result.{Result, Result-cases, err, fail_if, ok, ◌>>=◌, ◌>>◌}
use go_book.Betting.Errors.{
  Error, from_ledger, invalid, of_ledger, parlay_too_few_legs, parlay_too_many_legs,
  parlay_too_short,
}
use go_book.Betting.Parlay.Price.{legs_probability, parlay_odds_for}
use go_book.Ledger.Money.{invalid_american_odds}
use go_book.Ledger.Odds.{AmericanOdds, IsOdds, validate_odds}
use go_book.Pricing.Bounds.{american_from_probability-IsLine}
use go_book.Pricing.Floats.{Floats}
use go_book.Pricing.Line.{american_from_probability, implied_probability, max_odds, whole}
use mathlib.Core.Path.{subst}

module _ {F : Type 0} (fl : Floats F) where
  -- Every leg has a price that can be posted, or the product is refused.
  abbrev pub IsProduct : List AmericanOdds → Result Error F → Type 0
  IsProduct legs (ok p) = All IsOdds legs
  IsProduct legs (err (of_ledger invalid_american_odds)) = ¬ All IsOdds legs
  IsProduct legs (err _) = ⊥

  legs_probability-IsProduct :
      (os : List AmericanOdds) (p : F) → IsProduct os (legs_probability fl os p)
  unfolding legs_probability validate_odds
  legs_probability-IsProduct [] p = tt
  legs_probability-IsProduct (o ∷ os) p =
      let next = fl.mul p (implied_probability fl o) in
      let ih = legs_probability-IsProduct os next in
      elim (Result-cases (legs_probability fl os next)) [
        | inl (r, e) ↦ rw e (let good = subst (IsProduct os) (e) ih in ground arith)
        | inr (x, e) ↦ rw e (let bad = subst (IsProduct os) (e) ih in ground arith)
      ]

  refusal :
      (os : List AmericanOdds) (x : Error)
      → IsProduct os (err x)
      → (x ≡ of_ledger invalid_american_odds) × (¬ All IsOdds os)
  refusal os x h = ground arith

  module _ (legs : List AmericanOdds) (juice : ℤ) where
    -- What the price of a parlay is, by how the computation ended.
    abbrev pub IsPriced : Result Error AmericanOdds → Type 0
    IsPriced (ok o) =
        (2 ≤ length legs)
        × (length legs ≤ 8)
        × (pos 0 ≤ℤ juice)
        × All IsOdds legs
        × (pos 100 ≤ℤ o)
        × (o ≤ℤ max_odds)
    IsPriced (err parlay_too_few_legs) = length legs < 2
    IsPriced (err parlay_too_many_legs) = 8 < length legs
    IsPriced (err invalid) = juice <ℤ pos 0
    IsPriced (err (of_ledger invalid_american_odds)) = ¬ All IsOdds legs
    IsPriced (err parlay_too_short) = All IsOdds legs
    IsPriced (err _) = ⊥

    final :
        (probability : F)
        → 2 ≤ length legs
        → length legs ≤ 8
        → pos 0 ≤ℤ juice
        → All IsOdds legs
        → IsPriced (
            fail_if
              (fl.le probability (whole fl 0) || fl.le (whole fl 1) probability)
              parlay_too_short
            >> (from_ledger (american_from_probability fl probability) >>= λ odds.
                (fail_if (ltb_ℤ odds (pos 100)) parlay_too_short >> ok odds)))
    final probability lo hi j all =
        let (o, made, line) = american_from_probability-IsLine fl probability in
        rw made (ground arith)

    pub parlay_odds_for-IsPriced : IsPriced (parlay_odds_for fl legs juice)
    unfolding parlay_odds_for
    parlay_odds_for-IsPriced = elim (Bool-cases (ltb (length legs) 2)) [
      | inl few ↦ rw few (ground arith)
      | inr two ↦ elim (Bool-cases (ltb 8 (length legs))) [
        | inl many ↦ rw (two, many) (ground arith)
        | inr some_legs ↦ elim (Bool-cases (ltb_ℤ juice (pos 0))) [
          | inl below ↦ rw (two, some_legs, below) (ground arith)
          | inr margin ↦ elim (Result-cases (legs_probability fl legs (whole fl 1))) [
            | inl (p, e) ↦
                rw (two, some_legs, margin, e)
                  (final _ (ground arith) (ground arith) (ground arith)
                    (subst (IsProduct legs) (e) (legs_probability-IsProduct legs (whole fl 1))))
            | inr (x, e) ↦
                let (same, bad) =
                  refusal legs x
                    (subst (IsProduct legs) (e) (legs_probability-IsProduct legs (whole fl 1))) in
                rw (two, some_legs, margin, e, same) bad
          ]
        ]
      ]
    ]
