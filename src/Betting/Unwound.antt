-- ===== src/Betting/Unwound.antt =====
-- Taking an accepted wager back, whole or in part: no cent of the stake is lost.
use go_book.Base.{[], ap, arith, false, sym, ◌∷◌, ◌≡◌}
use go_book.Base.Int.{
  IsInt32, IsInt64, int_laws, neg_parts, pos, sub64, wrap64_id, ℤ, ◌+ℤ◌, ◌-ℤ◌, ◌<ℤ◌,
}
use go_book.Base.Result.{Result-cases, ok}
use go_book.Base.Text.{Text, is_empty, text_eq_iff, trim_space}
use go_book.Betting.Accept.{posting}
use go_book.Betting.Accepted.{IsTyped, negate-stake, opposite, validate_wager-HasStake}
use go_book.Betting.Types.{
  EntityId, Wager, validate_wager, wager_accepted, wager_can_transition, wager_voided,
}
use go_book.Betting.Unwind.{
  VoidWagerAccountRefs, reduce_transaction, reduce_wager, void_transaction, void_wager,
}
use go_book.Events.Envelope.{Time}
use go_book.Ledger.Balance.{InRange, IsBalanced}
use go_book.Ledger.Money.{Currency, Money, new_money}
use go_book.Ledger.Odds.{profit}
use go_book.Ledger.Posting.{Transaction, validate_transaction, wager_refund}
use go_book.Ledger.Profit.{currency-cases, profit-eq, profit-nonneg}
use go_book.Ledger.Sums.{negate_pos}
use go_book.Ledger.Transfers.{validate_transaction_iff}
use mathlib.Core.Path.{subst}

module _ (w : Wager) (refs : VoidWagerAccountRefs) where
  -- A transaction that moves an amount of a wager's stake from escrow to the member.
  pub record IsRefund (refund : Money) (t : Transaction) : Type 0 where
    pub postings_are :
        t.postings ≡ posting refs.escrow (opposite refund) ∷ posting refs.user_funding refund ∷ []
    pub currency_is : t.currency ≡ w.stake.currency
    pub kind_is : t.kind ≡ wager_refund
    pub source_is : t.source_id ≡ w.id
    pub balanced : IsBalanced w.stake.currency t.postings

transaction-IsBalanced :
    (t : Transaction)
    → InRange t.postings
    → validate_transaction t ≡ ok tt
    → IsBalanced t.currency t.postings
transaction-IsBalanced t r e = ((validate_transaction_iff t r).0 e).1

pair-InRange :
    (m : Money) (a b : Text)
    → IsInt64 m.cents
    → pos 0 <ℤ m.cents
    → InRange (posting a (opposite m) ∷ posting b m ∷ [])
pair-InRange m a b r p = omega (arith, neg_parts m.cents)

void_wager-inv :
    (w : Wager) (actor : EntityId) (reason : Text) (refs : VoidWagerAccountRefs) (at : Time)
    {w' : Wager} {t : Transaction}
    → IsInt64 w.stake.cents
    → void_wager w actor reason refs at ≡ ok (w', t)
    → (w.state ≡ wager_accepted)
      × (w' ≡ record w { state = wager_voided })
      × (t ≡ void_transaction w actor (trim_space reason) refs (opposite w.stake))
      × (validate_transaction t ≡ ok tt)
      × (validate_wager w ≡ ok tt)
      × (is_empty (trim_space reason) ≡ false)
unfolding void_wager wager_can_transition
void_wager-inv w actor reason refs at r d =
    ground (arith, negate-stake w, validate_wager-HasStake w)

reduce_wager-inv :
    (w : Wager) (new : Money) (actor : EntityId) (reason : Text) (refs : VoidWagerAccountRefs)
    (at : Time) {w' : Wager} {refund : Money} {t : Transaction}
    → reduce_wager w new actor reason refs at ≡ ok (w', refund, t)
    → (w.state ≡ wager_accepted)
      × (validate_wager w ≡ ok tt)
      × (pos 0 <ℤ new.cents)
      × (new.cents <ℤ w.stake.cents)
      × (new.currency ≡ w.stake.currency)
      × (refund ≡ record { cents = sub64 w.stake.cents new.cents; currency = w.stake.currency })
unfolding reduce_wager new_money
reduce_wager-inv w new actor reason refs at d =
    ground (arith, text_eq_iff new.currency w.stake.currency)

IsRefund-of :
    (w : Wager) (refs : VoidWagerAccountRefs) (refund : Money) (t : Transaction)
    → IsInt64 refund.cents
    → pos 0 <ℤ refund.cents
    → t.postings ≡ posting refs.escrow (opposite refund) ∷ posting refs.user_funding refund ∷ []
    → t.currency ≡ w.stake.currency
    → t.kind ≡ wager_refund
    → t.source_id ≡ w.id
    → validate_transaction t ≡ ok tt
    → IsRefund w refs refund t
IsRefund-of w refs refund t r p postings currency kind source v = record {
  postings_are = postings;
  currency_is = currency;
  kind_is = kind;
  source_is = source;
  balanced =
      subst (λ (c : Currency). IsBalanced c t.postings) currency
        (transaction-IsBalanced t
          (subst InRange (sym postings) (pair-InRange refund refs.escrow refs.user_funding r p)) v);
}

-- Voiding a wager, when it succeeds: it was accepted and is now voided, a reason was given, and the
-- whole stake goes from escrow back to the member in postings that balance.
pub void_wager-IsRefund :
    (w : Wager) (actor : EntityId) (reason : Text) (refs : VoidWagerAccountRefs) (at : Time)
    {w' : Wager} {t : Transaction}
    → IsInt64 w.stake.cents
    → void_wager w actor reason refs at ≡ ok (w', t)
    → (w.state ≡ wager_accepted)
      × (w' ≡ record w { state = wager_voided })
      × (is_empty t.reason ≡ false)
      × IsRefund w refs w.stake t
void_wager-IsRefund w actor reason refs at {w'} {t} r d =
    let (was, now, made, v, valid, explained) = void_wager-inv w actor reason refs at r d in
    let h = validate_wager-HasStake w valid in
    (
      was,
      now,
      rw made explained,
      IsRefund-of w refs w.stake t r h.positive (ap (λ (x : Transaction). x.postings) made)
          (ap (λ (x : Transaction). x.currency) made) (ap (λ (x : Transaction). x.kind) made)
          (ap (λ (x : Transaction). x.source_id) made) v,
    )

back_range :
    (old new : ℤ)
    → IsInt64 old
    → pos 0 <ℤ new
    → new <ℤ old
    → IsInt64 (old -ℤ new) × (pos 0 <ℤ old -ℤ new) × (new +ℤ (old -ℤ new) ≡ old)
back_range old new r p q = (omega int_laws, omega int_laws, omega int_laws)

abbrev refund_cents : Wager → Money → Money
refund_cents w new = record { cents = w.stake.cents -ℤ new.cents; currency = w.stake.currency }

reduce_wager-made :
    (w : Wager) (new : Money) (actor : EntityId) (reason : Text) (refs : VoidWagerAccountRefs)
    (at : Time) {w' : Wager} {refund : Money} {t : Transaction}
    → IsInt64 w.stake.cents
    → reduce_wager w new actor reason refs at ≡ ok (w', refund, t)
    → (refund ≡ refund_cents w new)
      × (t ≡ reduce_transaction w new actor (trim_space reason) refs refund (opposite refund))
      × (validate_transaction t ≡ ok tt)
      × (profit w.accepted_odds new ≡ ok w'.potential_profit)
      × (w' ≡ record w { stake = new; potential_profit = w'.potential_profit })
unfolding reduce_wager new_money
reduce_wager-made w new actor reason refs at {w'} {refund} {t} r d =
    let (was, valid, lo, hi, same, is) = reduce_wager-inv w new actor reason refs at d in
    let h = validate_wager-HasStake w valid in
    let (b, p, _) = back_range w.stake.cents new.cents r lo hi in
    let opp = negate_pos (refund_cents w new) (record { in_range = b; valid = h.currency }) p in
    let sub = wrap64_id (w.stake.cents -ℤ new.cents) b in
    ground (arith, Result-cases (profit w.accepted_odds new))

pub record IsReduced (w : Wager) (new : Money) (refs : VoidWagerAccountRefs) (w' : Wager)
    (refund : Money) (t : Transaction) : Type 0 where
  pub was_accepted : w.state ≡ wager_accepted
  pub reduced : w' ≡ record w { stake = new; potential_profit = w'.potential_profit }
  pub repriced : profit w.accepted_odds new ≡ ok w'.potential_profit
  pub kept_positive : pos 0 <ℤ new.cents
  pub returned_positive : pos 0 <ℤ refund.cents
  pub conserved : new.cents +ℤ refund.cents ≡ w.stake.cents
  pub moves : IsRefund w refs refund t
  pub still_valid : validate_wager w' ≡ ok tt

reduced-valid :
    (w : Wager) (new won : Money)
    → IsInt32 w.accepted_odds
    → validate_wager w ≡ ok tt
    → pos 0 <ℤ new.cents
    → new.currency ≡ w.stake.currency
    → profit w.accepted_odds new ≡ ok won
    → validate_wager (record w { stake = new; potential_profit = won }) ≡ ok tt
unfolding validate_wager
reduced-valid w new won range valid lo same priced =
    let n = profit-nonneg w.accepted_odds new range priced in
    let (q, _, _) = profit-eq w.accepted_odds new range priced in
    rw (q, same) (ground (arith, currency-cases w.stake.currency))

-- Reducing the stake of a wager, when it succeeds: the wager was accepted and stays so, its new stake
-- and the refund are both positive and add up to the old stake, the possible profit is the profit of
-- the new stake at the accepted odds, nothing else of the wager changes and it is still valid, and the
-- refund goes from escrow to the member in postings that balance.
pub reduce_wager-IsReduced :
    (w : Wager) (new : Money) (actor : EntityId) (reason : Text) (refs : VoidWagerAccountRefs)
    (at : Time) {w' : Wager} {refund : Money} {t : Transaction}
    → IsTyped w
    → reduce_wager w new actor reason refs at ≡ ok (w', refund, t)
    → IsReduced w new refs w' refund t
reduce_wager-IsReduced w new actor reason refs at {w'} {refund} {t} ty d =
    let r = ty.stake_range in
    let (was, valid, lo, hi, same, _) = reduce_wager-inv w new actor reason refs at d in
    let (back, made, v, priced, now) = reduce_wager-made w new actor reason refs at r d in
    let (b, p, sum) = back_range w.stake.cents new.cents r lo hi in
    let back_cents = ap (λ (m : Money). m.cents) back in
    record {
      was_accepted = was;
      reduced = now;
      repriced = priced;
      kept_positive = lo;
      returned_positive = subst (λ (m : Money). pos 0 <ℤ m.cents) (sym back) p;
      conserved = rw back_cents sum;
      moves =
          IsRefund-of w refs refund t (subst (λ (m : Money). IsInt64 m.cents) (sym back) b)
            (subst (λ (m : Money). pos 0 <ℤ m.cents) (sym back) p)
            (ap (λ (x : Transaction). x.postings) made) (ap (λ (x : Transaction). x.currency) made)
            (ap (λ (x : Transaction). x.kind) made) (ap (λ (x : Transaction). x.source_id) made) v;
      still_valid =
          subst (λ (x : Wager). validate_wager x ≡ ok tt) (sym now)
            (reduced-valid w new w'.potential_profit ty.odds_range valid lo same priced);
    }
