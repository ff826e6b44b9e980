-- ===== src/Betting/Reversible.antt =====
-- A recorded adjustment can always be taken back.
use go_book.Base.{List, [], ap, arith, false, refl, sym, true, ◌∙◌, ◌∷◌, ◌≡◌}
use go_book.Base.Blank.{is_blank-cons, trim_space-nonblank}
use go_book.Base.Int.{IsInt64, neg, neg-+ℤ, pos, ◌<ℤ◌}
use go_book.Base.Result.{ok}
use go_book.Base.Text.{Text, is_blank, is_empty, is_space, trim_space}
use go_book.Betting.Adjust.{
  AdjustmentCommand, AdjustmentDirection, negate_postings, other_direction, payment_received,
  payout_sent, record_adjustment, reversal_key, reverse_adjustment, reversing,
}
use go_book.Betting.Adjusted.{
  IsRecorded, adjustment_postings, neg-neg, negations, record_adjustment-IsRecorded,
  record_adjustment-amount, signed, signed-range,
}
use go_book.Betting.Types.{EntityId, valid_id}
use go_book.Ledger.Balance.{InRange, IsBalanced}
use go_book.Ledger.Money.{Currency, IsCurrency, Money, negate}
use go_book.Ledger.Posting.{Posting, Transaction, validate_transaction, validate_type}
use go_book.Ledger.Transfers.{Apart, HasHeader, pair-IsBalanced, posted, validate_transaction_iff}
use mathlib.Core.Path.{subst}

negated_signed :
    (d : AdjustmentDirection) (m : Money)
    → IsInt64 m.cents
    → pos 0 <ℤ m.cents
    → IsCurrency m.currency
    → (negate (record m { cents = signed d m.cents })
        ≡ ok (record m { cents = neg (signed d m.cents) }))
      × (negate (record m { cents = neg (signed d m.cents) })
          ≡ ok (record m { cents = signed d m.cents }))
negated_signed payment_received m r p v = let (a, b, _) = negations m r p v in (a, b)
negated_signed payout_sent m r p v =
    let (a, b, _) = negations m r p v in rw (neg-neg m.cents) (b, a)
negated_signed (other_direction _) m r p v = let (a, b, _) = negations m r p v in (a, b)

negated_pair :
    (c : AdjustmentCommand)
    → IsInt64 c.amount.cents
    → pos 0 <ℤ c.amount.cents
    → IsCurrency c.amount.currency
    → negate_postings (adjustment_postings c)
      ≡ ok (
          posted c.refs.user_funding (neg (signed c.direction c.amount.cents)) c.amount.currency
          ∷ posted c.refs.house_clearing (signed c.direction c.amount.cents) c.amount.currency
          ∷ [])
unfolding negate_postings
negated_pair c r p v = let (a, b) = negated_signed c.direction c.amount r p v in rw (a, b)

reversal-HasHeader :
    (c : AdjustmentCommand) {t : Transaction} (original_id : Text) (actor : EntityId)
    (reason : Text) (ps : List Posting)
    → IsRecorded c t
    → valid_id original_id ≡ true
    → valid_id actor ≡ true
    → is_empty (trim_space reason) ≡ false
    → HasHeader (reversing t original_id actor (trim_space reason) ps)
unfolding validate_type reversal_key is_space
reversal-HasHeader c {t} original_id actor reason ps d named by explained = record {
  known = refl;
  keyed = is_blank-cons b's' _ refl;
  by_actor = ground arith;
  source_typed = is_blank-cons b's' _ refl;
  sourced = d.header.sourced;
  reverses = λ _. ground arith;
  explained = λ _. trim_space-nonblank reason explained;
}

recorded-Apart :
    (c : AdjustmentCommand) {t : Transaction}
    → IsRecorded c t
    → Apart c.refs.user_funding c.refs.house_clearing
unfolding is_blank
recorded-Apart c d =
    let b = subst (IsBalanced c.amount.currency) d.postings_are d.balanced in
    (b.each.0.has_account, b.each.1.0.has_account, b.distinct.0.0)

abbrev pub reversed_postings : AdjustmentCommand → List Posting
reversed_postings c =
    posted c.refs.user_funding (neg (signed c.direction c.amount.cents)) c.amount.currency
    ∷ posted c.refs.house_clearing (signed c.direction c.amount.cents) c.amount.currency
    ∷ []

reversed-IsBalanced :
    (c : AdjustmentCommand) {t : Transaction}
    → IsInt64 c.amount.cents
    → IsRecorded c t
    → IsCurrency c.amount.currency
    → IsBalanced c.amount.currency (reversed_postings c) × InRange (reversed_postings c)
reversed-IsBalanced c range d v =
    let (lo, hi, nz) = signed-range c.direction c.amount.cents range d.positive in
    let x = signed c.direction c.amount.cents in
    (
      pair-IsBalanced c.amount.currency c.refs.user_funding c.refs.house_clearing (neg x) x v
          (recorded-Apart c d) hi (λ e. nz (sym (neg-neg x) ∙ ap neg e)) nz (neg-+ℤ x),
      (hi, (lo, tt)),
    )

reversal-valid :
    (c : AdjustmentCommand) {t : Transaction} (original_id : Text) (actor : EntityId)
    (reason : Text)
    → IsInt64 c.amount.cents
    → IsRecorded c t
    → IsCurrency c.amount.currency
    → valid_id original_id ≡ true
    → valid_id actor ≡ true
    → is_empty (trim_space reason) ≡ false
    → validate_transaction (reversing t original_id actor (trim_space reason) (reversed_postings c))
      ≡ ok tt
reversal-valid c {t} original_id actor reason range d v named by explained =
    let (b, r) = reversed-IsBalanced c range d v in
    (validate_transaction_iff
        (reversing t original_id actor (trim_space reason) (reversed_postings c)) r).1
      (
        reversal-HasHeader c original_id actor reason (reversed_postings c) d named by explained,
        subst (λ (x : Currency). IsBalanced x (reversed_postings c)) (sym d.currency_is) b,
      )

-- A recorded adjustment can be reversed by anyone who is named, with a reason that is not blank.
pub reverse_adjustment_total :
    (c : AdjustmentCommand) {t : Transaction} (original_id : Text) (actor : EntityId)
    (reason : Text)
    → IsInt64 c.amount.cents
    → record_adjustment c ≡ ok t
    → valid_id original_id ≡ true
    → valid_id actor ≡ true
    → is_empty (trim_space reason) ≡ false
    → reverse_adjustment t original_id actor reason
      ≡ ok (reversing t original_id actor (trim_space reason) (reversed_postings c))
unfolding reverse_adjustment
reverse_adjustment_total c {t} original_id actor reason range done named by explained =
    let d = record_adjustment-IsRecorded c range done in
    let (_, v) = record_adjustment-amount c done in
    rw (
      d.kind_is,
      named,
      by,
      explained,
      d.postings_are,
      negated_pair c range d.positive v,
      reversal-valid c original_id actor reason range d v named by explained,
    )
