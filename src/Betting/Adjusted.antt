-- ===== src/Betting/Adjusted.antt =====
-- Recording money that changed hands outside the app.
use go_book.Base.{List, [], arith, refl, sym, ◌∷◌, ◌≡◌, ◌≢◌}
use go_book.Base.Int.{IsInt64, neg, neg_parts, negsuc, pos, wrap64_id, ℤ, ◌<ℤ◌}
use go_book.Base.Result.{ok}
use go_book.Betting.Accepted.{opposite}
use go_book.Betting.Adjust.{
  AdjustmentCommand, AdjustmentDirection, adjustment_key, other_direction, payment_received,
  payout_sent, record_adjustment, validate_direction,
}
use go_book.Ledger.Balance.{InRange, IsBalanced}
use go_book.Ledger.Money.{Currency, IsCurrency, Money, negate}
use go_book.Ledger.Posting.{Posting, Transaction, admin_adjustment, validate_transaction}
use go_book.Ledger.Profit.{currency-cases}
use go_book.Ledger.Sums.{negate_pos}
use go_book.Ledger.Transfers.{HasHeader, posted, validate_transaction_iff}
use mathlib.Core.Path.{subst}

-- The member's side of an adjustment.
abbrev pub signed : AdjustmentDirection → ℤ → ℤ
signed payout_sent a = neg a
signed _ a = a

abbrev pub adjustment_postings : AdjustmentCommand → List Posting
adjustment_postings c =
    posted c.refs.user_funding (signed c.direction c.amount.cents) c.amount.currency
    ∷ posted c.refs.house_clearing (neg (signed c.direction c.amount.cents)) c.amount.currency
    ∷ []

pub record_adjustment-amount :
    (c : AdjustmentCommand) {t : Transaction}
    → record_adjustment c ≡ ok t
    → (pos 0 <ℤ c.amount.cents) × IsCurrency c.amount.currency
unfolding record_adjustment
record_adjustment-amount c d = ground (arith, currency-cases c.amount.currency)

pub neg-neg : (a : ℤ) → neg (neg a) ≡ a
neg-neg (pos n) = ground arith
neg-neg (negsuc n) = ground arith

-- Both negations of a positive amount, one after the other.
pub negations :
    (m : Money)
    → IsInt64 m.cents
    → pos 0 <ℤ m.cents
    → IsCurrency m.currency
    → (negate m ≡ ok (opposite m)) × (negate (opposite m) ≡ ok m) × IsInt64 (neg m.cents)
unfolding negate
negations m r p v =
    let q : IsInt64 (neg m.cents) = omega (arith, neg_parts m.cents) in
    (
      negate_pos m (record { in_range = r; valid = v }) p,
      rw v (ground (arith, neg-neg m.cents, wrap64_id m.cents, neg_parts m.cents)),
      q,
    )

-- The result of the direction: the member's amount, and the house's.
by_direction :
    (c : AdjustmentCommand) (d : AdjustmentDirection) {t : Transaction}
    → c.direction ≡ d
    → IsInt64 c.amount.cents
    → record_adjustment c ≡ ok t
    → (t.postings ≡ adjustment_postings c)
      × (t.currency ≡ c.amount.currency)
      × (validate_transaction t ≡ ok tt)
unfolding record_adjustment validate_direction
by_direction c payment_received {t} f r e =
    let (p, v) = record_adjustment-amount c e in
    let (a, _, _) = negations c.amount r p v in rw f (ground arith)
by_direction c payout_sent {t} f r e =
    let (p, v) = record_adjustment-amount c e in
    let (a, b, _) = negations c.amount r p v in rw (f, neg-neg c.amount.cents) (ground arith)
by_direction c (other_direction x) {t} f r e = ground arith

pub record IsRecorded (c : AdjustmentCommand) (t : Transaction) : Type 0 where
  pub positive : pos 0 <ℤ c.amount.cents
  pub postings_are : t.postings ≡ adjustment_postings c
  pub currency_is : t.currency ≡ c.amount.currency
  pub balanced : IsBalanced c.amount.currency t.postings
  pub header : HasHeader t
  pub kind_is : t.kind ≡ admin_adjustment
  pub source_is : t.source_id ≡ c.adjustment_id
  pub keyed : t.idempotency_key ≡ adjustment_key c.adjustment_id

pub signed-range :
    (d : AdjustmentDirection) (a : ℤ)
    → IsInt64 a
    → pos 0 <ℤ a
    → IsInt64 (signed d a) × IsInt64 (neg (signed d a)) × (signed d a ≢ pos 0)
signed-range d (pos n) r p = ground arith
signed-range d (negsuc n) r p = ground arith

-- Recording an adjustment, when it succeeds: the amount is positive; a payment credits the member and
-- a payout debits him, the house has the opposite amount, the two balance, and the transaction is an
-- admin adjustment under the key of the adjustment.
pub record_adjustment-IsRecorded :
    (c : AdjustmentCommand) {t : Transaction}
    → IsInt64 c.amount.cents
    → record_adjustment c ≡ ok t
    → IsRecorded c t
unfolding record_adjustment
record_adjustment-IsRecorded c {t} r e =
    let (p, _) = record_adjustment-amount c e in
    let (postings, currency, v) = by_direction c c.direction refl r e in
    let (lo, hi, _) = signed-range c.direction c.amount.cents r p in
    let (hd, b) = (validate_transaction_iff t (subst InRange (sym postings) (lo, (hi, tt)))).0 v in
    record {
      positive = p;
      postings_are = postings;
      currency_is = currency;
      balanced = subst (λ (x : Currency). IsBalanced x t.postings) currency b;
      header = hd;
      kind_is = ground arith;
      source_is = ground arith;
      keyed = ground arith;
    }
