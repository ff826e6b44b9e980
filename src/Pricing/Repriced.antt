-- ===== src/Pricing/Repriced.antt =====
-- What `Reprice` returns.
use go_book.Base.{
  All, Bool-cases, List, [], ap, arith, false, inl, inr, length, refl, suc, true, zero, ℕ, ◌∷◌, ◌≡◌,
  ◌≢◌, ◌⊎◌,
}
use go_book.Base.Int.{eq_of_parts, eqb_ℤ, int_laws, neg_part, pos, pos_part, ℤ, ◌+ℤ◌, ◌≤ℤ◌}
use go_book.Base.Result.{ok}
use go_book.Ledger.Odds.{AmericanOdds}
use go_book.Pricing.Bounds.{
  IsLine, IsShorter, american_from_probability-IsLine, rung, shorten_one_point-IsShorter,
}
use go_book.Pricing.Floats.{Floats}
use go_book.Pricing.Line.{american_from_probability, implied_probability, min_line}
use go_book.Pricing.Reprice.{Runner, lines_of, walk_back}

eq_of_eqb : (a b : ℤ) → eqb_ℤ a b ≡ true → a ≡ b
eq_of_eqb a b h = eq_of_parts a b (ground arith)

eqb_of_eq : (a b : ℤ) → a ≡ b → eqb_ℤ a b ≢ false
eqb_of_eq a b e h = ground arith

one_more : (a b : ℤ) → a ≡ b +ℤ pos 1 → b ≢ a
one_more a b e f = omega (int_laws, ap pos_part e, ap neg_part e, ap pos_part f, ap neg_part f)

module _ {F : Type 0} (fl : Floats F) where
  -- Every price that is left on the way, one rung at a time, does not clear the floor.
  abbrev pub IsWay : ℕ → AmericanOdds → F → AmericanOdds → Type 0
  IsWay zero o lowest r = r ≡ o
  IsWay (suc steps) o lowest r =
      (r ≡ o)
      ⊎ ((fl.lt (implied_probability fl o) lowest ≡ true)
          × (s : AmericanOdds) × IsShorter o s
          × IsWay steps s lowest r)

  -- Where a walk of at most `steps` steps from the line `o` ends: at a price that clears the floor, at
  -- the shortest line, or after all its steps.
  pub record IsWalked (steps : ℕ) (o : AmericanOdds) (lowest : F) (r : AmericanOdds) : Type 0 where
    pub line : IsLine r
    pub no_longer : rung r ≤ℤ rung o
    pub way : IsWay steps o lowest r
    pub why :
        (fl.lt (implied_probability fl r) lowest ≡ false)
        ⊎ (r ≡ min_line)
        ⊎ (rung r +ℤ pos steps ≡ rung o)

  module _ {steps : ℕ} (o s : AmericanOdds) (lowest : F) where
    stopped : IsLine o → IsShorter o s → s ≡ o → IsWalked (suc steps) o lowest o
    stopped h sh e = record {
      line = h;
      no_longer = omega arith;
      way = inl refl;
      why = elim sh.one_rung [
        | inl one ↦ absurd (one_more (rung o) (rung s) one (ap rung e))
        | inr (last, _) ↦ inr (inl last)
      ];
    }

    stepped :
        {r : AmericanOdds}
        → fl.lt (implied_probability fl o) lowest ≡ true
        → IsShorter o s
        → eqb_ℤ s o ≡ false
        → IsWalked steps s lowest r
        → IsWalked (suc steps) o lowest r
    stepped low sh moved w = elim sh.one_rung [
      | inl one ↦ record {
        line = w.line;
        no_longer = omega (int_laws, ap pos_part one, ap neg_part one, w.no_longer);
        way = inr (low, s, sh, w.way);
        why = elim w.why [
          | inl clear ↦ inl clear
          | inr (inl last) ↦ inr (inl last)
          | inr (inr all) ↦ inr (
              inr (
                omega
                  (int_laws, ap pos_part one, ap neg_part one, ap pos_part all, ap neg_part all)))
        ];
      }
      | inr (_, same) ↦ absurd (eqb_of_eq s o same moved)
    ]

  pub walk_back-IsWalked :
      (steps : ℕ) (o : AmericanOdds) (lowest : F)
      → IsLine o
      → IsWalked steps o lowest (walk_back fl steps o lowest)
  unfolding walk_back
  walk_back-IsWalked zero o lowest h = record {
    line = h;
    no_longer = omega arith;
    way = refl;
    why = inr (inr (omega int_laws));
  }
  walk_back-IsWalked (suc steps) o lowest h =
      elim (Bool-cases (fl.lt (implied_probability fl o) lowest)) [
        | inr clear ↦
            rw clear (record { line = h; no_longer = omega arith; way = inl refl; why = inl clear })
        | inl low ↦
            let (s, made, sh) = shorten_one_point-IsShorter o h in
            elim (Bool-cases (eqb_ℤ s o)) [
              | inl same ↦ rw (low, made, same) (stopped o s lowest h sh (eq_of_eqb s o same))
              | inr moved ↦
                  rw (low, made, moved)
                    (stepped o s lowest low sh moved (walk_back-IsWalked steps s lowest sh.line))
            ]
      ]

  -- The line of a selection whose probability the model has found.
  pub record IsFollowed (p : F) (lowest : F) (line : AmericanOdds) : Type 0 where
    pub nearest : AmericanOdds
    pub from_probability : american_from_probability fl p ≡ ok nearest
    pub walked : IsWalked 32 nearest lowest line

  abbrev pub AllFollowed : List (Runner F) → List F → List AmericanOdds → Type 0
  AllFollowed (r ∷ rs) (f ∷ fs) (o ∷ os) = IsFollowed r.probability f o × AllFollowed rs fs os
  AllFollowed [] [] [] = Unit
  AllFollowed _ _ _ = ⊥

  pub lines_of-total :
      (rs : List (Runner F)) (fs : List F)
      → length rs ≡ length fs
      → (os : List AmericanOdds) × (lines_of fl rs fs ≡ ok os) × AllFollowed rs fs os
  unfolding lines_of
  lines_of-total [] [] e = ([], refl, tt)
  lines_of-total [] (_ ∷ _) e = absurd (omega (arith, e))
  lines_of-total (_ ∷ _) [] e = absurd (omega (arith, e))
  lines_of-total (r ∷ rs) (f ∷ fs) e =
      let (o, made, line) = american_from_probability-IsLine fl r.probability in
      let (os, rest, all) = lines_of-total rs fs (omega (arith, e)) in
      (
        walk_back fl 32 o f ∷ os,
        rw (made, rest) refl,
        (
          record { nearest = o; from_probability = made; walked = walk_back-IsWalked 32 o f line },
          all,
        ),
      )

  pub AllFollowed-lines :
      (rs : List (Runner F)) (fs : List F) (os : List AmericanOdds)
      → AllFollowed rs fs os
      → (length os ≡ length rs) × All IsLine os
  AllFollowed-lines [] [] [] h = (refl, tt)
  AllFollowed-lines [] [] (o ∷ os) h = elim h [ ]
  AllFollowed-lines [] (f ∷ fs) os h = elim h [ ]
  AllFollowed-lines (r ∷ rs) [] os h = elim h [ ]
  AllFollowed-lines (r ∷ rs) (f ∷ fs) [] h = elim h [ ]
  AllFollowed-lines (r ∷ rs) (f ∷ fs) (o ∷ os) h =
      let (n, lines) = AllFollowed-lines rs fs os h.1 in
      (omega (arith, n), (h.0.walked.line, lines))
