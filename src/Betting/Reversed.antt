-- ===== src/Betting/Reversed.antt =====
-- Taking the record of an adjustment back.
use go_book.Base.{
  All, Bool, List, [], ap, arith, false, if◌then◌else◌, inl, inr, refl, true, ◌∷◌, ◌≡◌,
}
use go_book.Base.Int.{IsInt64, int_laws, neg, neg_part, neg_parts, pos, pos_part, ℤ, ◌+ℤ◌}
use go_book.Base.Result.{Result, Result-cases, err, ok, ◌>>=◌}
use go_book.Base.Text.{Text, text_eq, trim_space}
use go_book.Betting.Accept.{posting}
use go_book.Betting.Adjust.{negate_postings, reverse_adjustment, reversing}
use go_book.Betting.Adjusted.{negations}
use go_book.Betting.Errors.{Error, from_ledger}
use go_book.Betting.Legs.{credit}
use go_book.Betting.Types.{EntityId}
use go_book.Ledger.Balance.{InRange, IsPosting}
use go_book.Ledger.Money.{Currency, IsMoney, Money, negate}
use go_book.Ledger.Posting.{Posting, Transaction, admin_adjustment, reversal, validate_transaction}
use go_book.Ledger.Sums.{negate-eq}
use go_book.Ledger.Transfers.{validate_transaction_iff}
use mathlib.Core.Path.{subst}

-- The same accounts with the opposite amounts.
abbrev pub Opposed : List Posting → List Posting → Type 0
Opposed [] [] = Unit
Opposed [] (_ ∷ _) = ⊥
Opposed (_ ∷ _) [] = ⊥
Opposed (p ∷ ps) (q ∷ qs) =
    (q.account_id ≡ p.account_id)
    × (q.amount.currency ≡ p.amount.currency)
    × (q.amount.cents ≡ neg p.amount.cents)
    × Opposed ps qs

abbrev IsNegation : List Posting → Result Error (List Posting) → Type 0
IsNegation ps (ok qs) = Opposed ps qs
IsNegation ps (err _) = Unit

negated :
    (p : Posting) (ps : List Posting) (r : Result Error (List Posting)) (m : Money)
    → (m.currency ≡ p.amount.currency) × (m.cents ≡ neg p.amount.cents) × IsInt64 m.cents
    → IsNegation ps r
    → IsNegation (p ∷ ps) (r >>= λ rest. ok (posting p.account_id m ∷ rest))
negated p ps (ok qs) m (same, opp, _) ih = (refl, same, opp, ih)
negated p ps (err x) m h ih = tt

Opposed_step :
    (p : Posting) (ps : List Posting) (r : Result Error (List Posting))
    → (IsMoney p.amount)
    → IsNegation ps r
    → IsNegation
        (p ∷ ps)
        (from_ledger (negate p.amount) >>= λ m. (r >>= λ rest. ok (posting p.account_id m ∷ rest)))
Opposed_step p ps r h ih = elim (Result-cases (negate p.amount)) [
  | inr (x, e) ↦ rw e tt
  | inl (m, e) ↦ rw e (negated p ps r m (negate-eq p.amount h e) ih)
]

negate_postings-Opposed :
    (ps : List Posting)
    → All (λ (p : Posting). IsMoney p.amount) ps
    → IsNegation ps (negate_postings ps)
unfolding negate_postings
negate_postings-Opposed [] h = tt
negate_postings-Opposed (p ∷ ps) (h, hs) =
    Opposed_step p ps (negate_postings ps) h (negate_postings-Opposed ps hs)

cancel :
    (t : Bool) (x c d : ℤ)
    → c +ℤ d ≡ pos 0
    → (if t then x else pos 0) +ℤ c +ℤ ((if t then neg x else pos 0) +ℤ d) ≡ pos 0
cancel true x c d h = omega (int_laws, neg_parts x, ap pos_part h, ap neg_part h)
cancel false x c d h = omega (int_laws, ap pos_part h, ap neg_part h)

-- What any account gets by the one it gives by the other.
Opposed-credit :
    (a : Text) (ps qs : List Posting) → Opposed ps qs → credit a ps +ℤ credit a qs ≡ pos 0
Opposed-credit a [] [] h = omega int_laws
Opposed-credit a [] (q ∷ qs) h = elim h [ ]
Opposed-credit a (p ∷ ps) [] h = elim h [ ]
Opposed-credit a (p ∷ ps) (q ∷ qs) (same, _, opp, rest) =
    rw (same, opp) (cancel (text_eq p.account_id a) _ _ _ (Opposed-credit a ps qs rest))

pub record IsReversed (original t : Transaction) (original_id : Text) : Type 0 where
  pub of_adjustment : original.kind ≡ admin_adjustment
  pub kind_is : t.kind ≡ reversal
  pub reverses : t.reversal_of ≡ original_id
  pub source_is : t.source_id ≡ original.source_id
  pub opposed : Opposed original.postings t.postings
  pub nothing_left : (a : Text) → credit a original.postings +ℤ credit a t.postings ≡ pos 0
  pub valid : validate_transaction t ≡ ok tt

reverse_adjustment-inv :
    (original : Transaction) (original_id : Text) (actor : EntityId) (reason : Text)
    {t : Transaction}
    → reverse_adjustment original original_id actor reason ≡ ok t
    → (original.kind ≡ admin_adjustment)
      × (negate_postings original.postings ≡ ok t.postings)
      × (t ≡ reversing original original_id actor (trim_space reason) t.postings)
      × (validate_transaction t ≡ ok tt)
unfolding reverse_adjustment
reverse_adjustment-inv original original_id actor reason {t} e =
    ground (arith, Result-cases (negate_postings original.postings))

posting_monies :
    (c : Currency) (ps : List Posting)
    → All (IsPosting c) ps
    → InRange ps
    → All (λ (p : Posting). IsMoney p.amount) ps
posting_monies c [] h r = tt
posting_monies c (p ∷ ps) (h, hs) (r, rs) =
    (record { in_range = r; valid = h.valid }, posting_monies c ps hs rs)

-- Reversing a valid transaction of int64 amounts, when it succeeds: the original is an admin
-- adjustment; the reversal names it, has its source and the opposite of each of its postings, so that
-- after both no account has gained or lost anything, and it is a valid transaction itself.
pub reverse_adjustment-IsReversed :
    (original : Transaction) (original_id : Text) (actor : EntityId) (reason : Text)
    {t : Transaction}
    → InRange original.postings
    → validate_transaction original ≡ ok tt
    → reverse_adjustment original original_id actor reason ≡ ok t
    → IsReversed original t original_id
reverse_adjustment-IsReversed original original_id actor reason {t} r v e =
    let (kind, negations, made, valid) =
      reverse_adjustment-inv original original_id actor reason e in
    let (_, b) = (validate_transaction_iff original r).0 v in
    let opposed : Opposed original.postings t.postings =
      subst (IsNegation original.postings) negations (
        negate_postings-Opposed original.postings
          (posting_monies original.currency original.postings b.each r)) in
    record {
      of_adjustment = kind;
      kind_is = ap (λ (x : Transaction). x.kind) made;
      reverses = ap (λ (x : Transaction). x.reversal_of) made;
      source_is = ap (λ (x : Transaction). x.source_id) made;
      opposed = opposed;
      nothing_left = λ a. Opposed-credit a original.postings t.postings opposed;
      valid = valid;
    }
