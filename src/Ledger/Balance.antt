-- ===== src/Ledger/Balance.antt =====
-- What posting.go accepts, against an independent description of a balanced set of postings.
use go_book.Base.{
  All, List, [], arith, false, inl, inr, length, ltb, refl, true, ℕ, ◌↔◌, ◌∷◌, ◌≡◌, ◌≢◌, ◌≤◌,
}
use go_book.Base.Int.{
  +ℤ_assoc, +ℤ_parts, IsInt64, eq_of_parts, eqb_ℤ, pos, wrap64_id, zero-+ℤ, ℤ, ◌+ℤ◌,
}
use go_book.Base.Result.{>>=-eq-ok, fail_if-eq-ok, ok}
use go_book.Base.Text.{Text, is_empty, text_eq, text_eq_iff, trim_space}
use go_book.Ledger.Money.{Currency, IsCurrency, unbalanced_postings}
use go_book.Ledger.Posting.{Posting, check_posting, check_postings, contains, validate_postings}
use go_book.Ledger.Profit.{currency-cases}
use go_book.Ledger.Sums.{overflows_iff}
use mathlib.Core.Path.{subst}

abbrev pub account : Posting → Text
account p = trim_space p.account_id

-- The exact sum, with no wrap-around.
abbrev pub sum_cents : List Posting → ℤ
sum_cents [] = pos 0
sum_cents (p ∷ ps) = p.amount.cents +ℤ sum_cents ps

-- A posting that stands on its own.
pub record IsPosting (c : Currency) (p : Posting) : Type 0 where
  pub has_account : is_empty (account p) ≡ false
  pub valid : IsCurrency p.amount.currency
  pub same_currency : p.amount.currency ≡ c
  pub nonzero : p.amount.cents ≢ pos 0

abbrev pub Distinct : List Posting → Type 0
Distinct [] = Unit
Distinct (p ∷ ps) = All (λ q. account p ≢ account q) ps × Distinct ps

-- Every running total from `sum` on is an int64.
abbrev pub Fits : ℤ → List Posting → Type 0
Fits sum [] = Unit
Fits sum (p ∷ ps) = IsInt64 (sum +ℤ p.amount.cents) × Fits (sum +ℤ p.amount.cents) ps

abbrev pub InRange : List Posting → Type 0
InRange = All (λ p. IsInt64 p.amount.cents)

abbrev Unseen : List Text → List Posting → Type 0
Unseen seen = All (λ p. contains seen (account p) ≡ false)

Unseen-cons :
    (a : Text) (seen : List Text) (ps : List Posting)
    → Unseen (a ∷ seen) ps ↔ (All (λ q. a ≢ account q) ps × Unseen seen ps)
unfolding contains
Unseen-cons a seen [] = (λ _. (tt, tt), λ _. tt)
Unseen-cons a seen (p ∷ ps) = ground (arith, text_eq_iff a (account p), Unseen-cons a seen ps)

-- One round of the loop.
abbrev IsNext : Currency → List Text → ℤ → Posting → Type 0
IsNext c seen sum p =
    IsPosting c p × (contains seen (account p) ≡ false) × IsInt64 (sum +ℤ p.amount.cents)

check_posting-ok :
    (c : Currency) (seen : List Text) (sum : ℤ) (p : Posting)
    → IsInt64 sum
    → IsInt64 p.amount.cents
    → IsNext c seen sum p
    → check_posting c seen sum p ≡ ok (account p ∷ seen, sum +ℤ p.amount.cents)
unfolding check_posting
check_posting-ok c seen sum p hs hp (h, fresh, fits) =
    let e : text_eq p.amount.currency c ≡ true = (text_eq_iff _ _).1 h.same_currency in
    let z : eqb_ℤ p.amount.cents (pos 0) ≡ false = ground (arith, h.nonzero) in
    rw (h.has_account, fresh, h.valid, e, z, (overflows_iff _ _ hs hp).1 fits, wrap64_id _ fits)
      refl

check_posting-inv :
    (c : Currency) (seen : List Text) (sum : ℤ) (p : Posting)
    → IsInt64 sum
    → IsInt64 p.amount.cents
    → {next : List Text × ℤ} → check_posting c seen sum p ≡ ok next
    → IsNext c seen sum p
unfolding check_posting
check_posting-inv c seen sum p hs hp h = ground (
  arith,
  currency-cases p.amount.currency,
  text_eq_iff p.amount.currency c,
  overflows_iff sum p.amount.cents hs hp,
)

check_posting-IsNext :
    (c : Currency) (seen : List Text) (sum : ℤ) (p : Posting) {next : List Text × ℤ}
    → IsInt64 sum
    → IsInt64 p.amount.cents
    → check_posting c seen sum p ≡ ok next
    → IsNext c seen sum p × (next ≡ (account p ∷ seen, sum +ℤ p.amount.cents))
check_posting-IsNext c seen sum p hs hp h =
    let n = check_posting-inv c seen sum p hs hp h in
    (n, cc (check_posting-ok c seen sum p hs hp n))

ltb-false : (n : ℕ) → 2 ≤ n → ltb n 2 ≡ false
ltb-false n h = ground arith

-- What the loop accepts from a given point on.
abbrev Rest : Currency → List Text → ℤ → List Posting → Type 0
Rest c seen sum ps =
    All (IsPosting c) ps
    × Unseen seen ps
    × Distinct ps
    × Fits sum ps
    × (sum +ℤ sum_cents ps ≡ pos 0)

check_postings_sound :
    (c : Currency) (seen : List Text) (sum : ℤ) (ps : List Posting)
    → IsInt64 sum
    → InRange ps
    → check_postings c seen sum ps ≡ ok tt
    → Rest c seen sum ps
unfolding check_postings
check_postings_sound c seen sum [] hs hp h =
    (tt, tt, tt, tt, ground (arith, +ℤ_parts sum (pos 0), eq_of_parts (sum +ℤ pos 0) (pos 0)))
check_postings_sound c seen sum (p ∷ ps) hs (hp, hps) h =
    let (next, step, rest) =
      >>=-eq-ok (check_posting c seen sum p) (λ n. check_postings c n.0 n.1 ps) h in
    let (n, e) = check_posting-IsNext c seen sum p hs hp step in
    let r : Rest c (account p ∷ seen) (sum +ℤ p.amount.cents) ps =
      check_postings_sound c (account p ∷ seen) (sum +ℤ p.amount.cents) ps n.2 hps
        (subst (λ (t : List Text × ℤ). check_postings c t.0 t.1 ps ≡ ok tt) e rest) in
    let u = (Unseen-cons (account p) seen ps).0 r.1 in
    (
      (n.0, r.0),
      (n.1, u.1),
      (u.0, r.2),
      (n.2, r.3),
      cc (+ℤ_assoc sum p.amount.cents (sum_cents ps), r.4),
    )

check_postings_complete :
    (c : Currency) (seen : List Text) (sum : ℤ) (ps : List Posting)
    → IsInt64 sum
    → InRange ps
    → Rest c seen sum ps
    → check_postings c seen sum ps ≡ ok tt
unfolding check_postings
check_postings_complete c seen sum [] hs hp h = ground (arith, +ℤ_parts sum (pos 0))
check_postings_complete c seen sum (p ∷ ps) hs (hp, hps) (valid, unseen, distinct, fits, total) =
    rw (check_posting-ok c seen sum p hs hp (valid.0, unseen.0, fits.0)) (
      check_postings_complete c (account p ∷ seen) (sum +ℤ p.amount.cents) ps fits.0 hps (
        valid.1,
        (Unseen-cons (account p) seen ps).1 (distinct.0, unseen.1),
        distinct.1,
        fits.1,
        cc (+ℤ_assoc sum p.amount.cents (sum_cents ps), total),
      ))

Unseen-nil : (ps : List Posting) → Unseen [] ps
unfolding contains
Unseen-nil [] = tt
Unseen-nil (p ∷ ps) = (refl, Unseen-nil ps)

-- A balanced set of postings in one currency: at least two, each on an account of its own and not
-- zero, with the exact sum zero, and no running total out of range.
pub record IsBalanced (c : Currency) (ps : List Posting) : Type 0 where
  pub currency_valid : IsCurrency c
  pub at_least_two : 2 ≤ length ps
  pub each : All (IsPosting c) ps
  pub distinct : Distinct ps
  pub fits : Fits (pos 0) ps
  pub zero_sum : sum_cents ps ≡ pos 0

-- Postings of int64 amounts are accepted exactly when they are balanced: in a valid currency, at
-- least two, each nonzero, in that currency and on a nonblank account of its own, with every running
-- total an int64 and the exact sum zero.
pub validate_postings_iff :
    (c : Currency) (ps : List Posting)
    → InRange ps
    → (validate_postings c ps ≡ ok tt) ↔ IsBalanced c ps
unfolding validate_postings
validate_postings_iff c ps hp = (sound, complete)
  where
    zero_in_range : IsInt64 (pos 0)
    zero_in_range = omega arith

    sound : validate_postings c ps ≡ ok tt → IsBalanced c ps
    sound h = elim (currency-cases c) [
      | inl v ↦
          let (enough, loop) =
            fail_if-eq-ok (ltb (length ps) 2) unbalanced_postings (check_postings c [] (pos 0) ps)
              (rw v at h) in
          let r = check_postings_sound c [] (pos 0) ps zero_in_range hp loop in
          record {
            currency_valid = v;
            at_least_two = ground arith;
            each = r.0;
            distinct = r.2;
            fits = r.3;
            zero_sum = cc (zero-+ℤ (sum_cents ps), r.4);
          }
      | inr v ↦ cc v
    ]

    complete : IsBalanced c ps → validate_postings c ps ≡ ok tt
    complete b =
        rw (b.currency_valid, ltb-false (length ps) b.at_least_two)
          (check_postings_complete c [] (pos 0) ps zero_in_range hp
            (b.each, Unseen-nil ps, b.distinct, b.fits, cc (zero-+ℤ (sum_cents ps), b.zero_sum)))
