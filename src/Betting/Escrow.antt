-- ===== src/Betting/Escrow.antt =====
-- Escrow holds the stake of a wager exactly while the wager is accepted.
use go_book.Base.{List, [], ap, arith, false, if◌then◌else◌, refl, sym, ◌++◌, ◌∷◌, ◌≡◌}
use go_book.Base.Int.{
  +ℤ-neg, +ℤ_assoc, +ℤ_zero, IsInt64, int_laws, neg, neg_part, neg_parts, pos, pos_part, zero-+ℤ, ℤ,
  ◌+ℤ◌, ◌<ℤ◌,
}
use go_book.Base.Result.{ok}
use go_book.Base.Text.{Text, text_eq_refl}
use go_book.Betting.Accept.{cancel_wager, posting, reject_wager}
use go_book.Betting.Accepted.{
  HasStake, IsTyped, accept_wager_moves_stake, opposite, validate_wager-HasStake,
}
use go_book.Betting.Legs.{Accounts, Apart-ne, credit}
use go_book.Betting.Life.{
  Book, Reaches, Step, accepts, after, at_once, cancels, later, reduces, rejects, settles,
  to_acceptance, to_void, voids,
}
use go_book.Betting.Payloads.{Payload}
use go_book.Betting.Settle.{SettlementAccountRefs, WagerSettlement, next_state, settle_wager}
use go_book.Betting.Settlement.{settle_wager-IsSettled}
use go_book.Betting.Types.{
  EntityId, SettlementResult, Wager, WagerState, is_accepted, other_result, result_loss,
  result_push, result_void, result_win, wager_accepted, wager_can_transition, wager_pending,
  wager_rejected, wager_voided,
}
use go_book.Betting.Unwind.{VoidWagerAccountRefs}
use go_book.Betting.Unwound.{IsReduced, reduce_wager-IsReduced, void_wager-IsRefund}
use go_book.Events.Envelope.{Envelope, Time}
use go_book.Ledger.Balance.{sum_cents}
use go_book.Ledger.Money.{Money}
use go_book.Ledger.Posting.{Posting, Transaction}
use go_book.Ledger.Profit.{profit-nonneg}

-- What escrow must hold for a wager.
abbrev pub held : Wager → ℤ
held w = if is_accepted w.state then w.stake.cents else pos 0

pub record IsKept (refs : SettlementAccountRefs) (b : Book) : Type 0 where
  pub typed : IsTyped b.wager
  pub has_stake : HasStake b.wager
  pub in_escrow : credit refs.escrow b.postings ≡ held b.wager
  pub no_cent_lost : sum_cents b.postings ≡ pos 0

credit-append : (a : Text) (ps qs : List Posting) → credit a (ps ++ qs) ≡ credit a ps +ℤ credit a qs
credit-append a [] qs = sym (zero-+ℤ _)
credit-append a (p ∷ ps) qs = rw (credit-append a ps qs) (sym (+ℤ_assoc _ _ _))

sum_cents-append : (ps qs : List Posting) → sum_cents (ps ++ qs) ≡ sum_cents ps +ℤ sum_cents qs
sum_cents-append [] qs = sym (zero-+ℤ _)
sum_cents-append (p ∷ ps) qs = rw (sum_cents-append ps qs) (sym (+ℤ_assoc _ _ _))

module _ (refs : SettlementAccountRefs) (b : Book) (k : IsKept refs b) where
  -- A step keeps the invariant if its postings change escrow as its wager asks.
  IsKept-after :
      (w : Wager) (ps : List Posting)
      → IsTyped w
      → HasStake w
      → held b.wager +ℤ credit refs.escrow ps ≡ held w
      → sum_cents ps ≡ pos 0
      → IsKept refs (after b w ps)
  IsKept-after w ps t h e z = record {
    typed = t;
    has_stake = h;
    in_escrow = rw (credit-append refs.escrow b.postings ps, k.in_escrow) e;
    no_cent_lost = rw (sum_cents-append b.postings ps, k.no_cent_lost, z) (+ℤ_zero _);
  }

  -- A step that changes the state of the wager alone.
  IsKept-moved :
      (state : WagerState) (w : Wager) (ps : List Posting)
      → w ≡ record b.wager { state = state }
      → held b.wager +ℤ credit refs.escrow ps ≡ held (record b.wager { state = state })
      → sum_cents ps ≡ pos 0
      → IsKept refs (after b w ps)
  IsKept-moved state w ps e = rw e (
      IsKept-after (record b.wager { state = state }) ps
        (record {
          stake_range = k.typed.stake_range;
          profit_range = k.typed.profit_range;
          odds_range = k.typed.odds_range;
        })
        (record { currency = k.has_stake.currency; positive = k.has_stake.positive }))

escrow_pair :
    (refs : SettlementAccountRefs) (m : Money)
    → Accounts refs
    → (credit refs.escrow (posting refs.escrow (opposite m) ∷ posting refs.user_funding m ∷ [])
        ≡ neg m.cents)
      × (credit refs.escrow (posting refs.user_funding (opposite m) ∷ posting refs.escrow m ∷ [])
          ≡ m.cents)
escrow_pair refs m a =
    let (_, ue) = Apart-ne _ _ a.escrow_user in
    rw (text_eq_refl refs.escrow, ue) (omega int_laws, omega int_laws)

closes : (result : SettlementResult) → is_accepted (next_state result) ≡ false
closes result_win = refl
closes result_loss = refl
closes result_push = refl
closes result_void = refl
closes (other_result _) = refl

pub reject_wager-closes :
    (w : Wager) (actor : EntityId) (reason : Text) {w' : Wager}
    → reject_wager w actor reason ≡ ok w'
    → (w.state ≡ wager_pending) × (w' ≡ record w { state = wager_rejected })
unfolding reject_wager wager_can_transition
reject_wager-closes w actor reason e = ground arith

pub cancel_wager-closes :
    (w : Wager) (actor : EntityId) {w' : Wager}
    → cancel_wager w actor ≡ ok w'
    → (w.state ≡ wager_pending) × (w' ≡ record w { state = wager_rejected })
unfolding cancel_wager wager_can_transition
cancel_wager-closes w actor e = ground arith

pub settled_accepted :
    (w : Wager) (result : SettlementResult) (refs : SettlementAccountRefs)
    (market_settlement_id settlement_id : EntityId) (version : ℤ) (actor : EntityId) (at : Time)
    (event_id : EntityId) (divisor : ℤ) {s : WagerSettlement} {w' : Wager} {e : Envelope Payload}
    → HasStake w
    → IsTyped w
    → Accounts refs
    → settle_wager w result refs market_settlement_id settlement_id version actor at event_id
        divisor
      ≡ ok (s, w', e)
    → (w.state ≡ wager_accepted)
      × (w' ≡ record w { state = next_state result })
      × (credit refs.escrow s.transaction.postings ≡ neg w.stake.cents)
      × (sum_cents s.transaction.postings ≡ pos 0)
settled_accepted w result refs msid sid version actor at event_id divisor h t a e =
    let s =
      settle_wager-IsSettled w result refs msid sid version actor at event_id divisor h t a e in
    (s.was_accepted, s.closed, s.pays.from_escrow, s.balanced.zero_sum)

less :
    (old new back : ℤ)
    → IsInt64 old
    → pos 0 <ℤ new
    → pos 0 <ℤ back
    → new +ℤ back ≡ old
    → IsInt64 new × (old +ℤ neg back ≡ new)
less old new back r p q e = (
  omega (int_laws, ap pos_part e, ap neg_part e),
  omega (int_laws, neg_parts back, ap pos_part e, ap neg_part e),
)

reduced-kept :
    (w : Wager) (new : Money) (refs : VoidWagerAccountRefs) (w' : Wager) (refund : Money)
    (t : Transaction)
    → IsTyped w
    → IsReduced w new refs w' refund t
    → IsTyped w' × HasStake w' × (held w +ℤ neg refund.cents ≡ held w')
reduced-kept w new refs w' refund t ty r =
    let (range, left) =
      less w.stake.cents new.cents refund.cents ty.stake_range r.kept_positive r.returned_positive
        r.conserved in
    let stake_is = ap (λ (v : Wager). v.stake.cents) r.reduced in
    let won = profit-nonneg w.accepted_odds new ty.odds_range r.repriced in
    (
      record {
        stake_range = rw stake_is range;
        profit_range = (omega (arith, won.0), won.1);
        odds_range = rw (ap (λ (v : Wager). v.accepted_odds) r.reduced) ty.odds_range;
      },
      validate_wager-HasStake w' r.still_valid,
      rw (r.was_accepted, ap (λ (v : Wager). v.state) r.reduced, stake_is) (rw r.was_accepted left),
    )

pub Step-keeps :
    (refs : SettlementAccountRefs) {b c : Book}
    → Accounts refs
    → IsKept refs b
    → Step refs b c
    → IsKept refs c
Step-keeps refs a k (accepts b actor at event_id {r} e) =
    let (was, now, moves, balanced) =
      accept_wager_moves_stake b.wager actor at (to_acceptance refs) event_id k.typed e in
    IsKept-moved refs b k wager_accepted r.wager r.transaction.postings now
      (rw (moves, was, (escrow_pair refs b.wager.stake a).1) (zero-+ℤ _))
      (rw moves balanced.zero_sum)
Step-keeps refs a k (rejects b actor reason {w} e) =
    let (was, now) = reject_wager-closes b.wager actor reason e in
    IsKept-moved refs b k wager_rejected w [] now (rw was (+ℤ_zero _)) refl
Step-keeps refs a k (cancels b actor {w} e) =
    let (was, now) = cancel_wager-closes b.wager actor e in
    IsKept-moved refs b k wager_rejected w [] now (rw was (+ℤ_zero _)) refl
Step-keeps refs a k (voids b actor reason at {w} {t} e) =
    let (was, now, _, r) =
      void_wager-IsRefund b.wager actor reason (to_void refs) at k.typed.stake_range e in
    IsKept-moved refs b k wager_voided w t.postings now
      (rw (r.postings_are, was, (escrow_pair refs b.wager.stake a).0) (+ℤ-neg _))
      r.balanced.zero_sum
Step-keeps refs a k (reduces b new actor reason at {w} {m} {t} e) =
    let r = reduce_wager-IsReduced b.wager new actor reason (to_void refs) at k.typed e in
    let (ty, h, left) = reduced-kept b.wager new (to_void refs) w m t k.typed r in
    IsKept-after refs b k w t.postings ty h
      (rw (r.moves.postings_are, (escrow_pair refs m a).0) left) r.moves.balanced.zero_sum
Step-keeps refs a k (settles b result msid sid version actor at event_id divisor {s} {w} e) =
    let (was, now, from, sum) =
      settled_accepted b.wager result refs msid sid version actor at event_id divisor k.has_stake
        k.typed a e in
    IsKept-moved refs b k (next_state result) w s.transaction.postings now
      (rw (from, was, closes result) (+ℤ-neg _)) sum

-- Escrow holds exactly the stake of a wager while it is accepted, and nothing of it before and after,
-- in every state that the commands can reach from a wager with a positive int64 stake for which
-- nothing is posted and which is not accepted yet; and all postings together add up to nothing.
pub escrow_holds_the_stake :
    (refs : SettlementAccountRefs) (w : Wager) {b : Book}
    → Accounts refs
    → IsTyped w
    → HasStake w
    → is_accepted w.state ≡ false
    → Reaches refs (record { wager = w; postings = [] }) b
    → IsKept refs b
escrow_holds_the_stake refs w a t h n at_once = record {
  typed = t;
  has_stake = h;
  in_escrow = rw n refl;
  no_cent_lost = refl;
}
escrow_holds_the_stake refs w a t h n (later r s) =
    Step-keeps refs a (escrow_holds_the_stake refs w a t h n r) s
