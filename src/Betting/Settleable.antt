-- ===== src/Betting/Settleable.antt =====
-- internal/betting/settle.go, `settleWager`: settling a wager that is ready cannot fail on the
-- transaction it makes.
use go_book.Base.{All-append, Bool-cases, arith, false, inl, inr, refl, true, ◌≡◌}
use go_book.Base.Blank.{is_blank-cons}
use go_book.Base.Int.{IsInt64, eqb_ℤ, int_laws, neg_parts, pos, ℤ, ◌-ℤ◌, ◌<ℤ◌, ◌≤ℤ◌}
use go_book.Base.Result.{ok}
use go_book.Base.Text.{Text, codes, is_blank, is_space}
use go_book.Betting.Accepted.{HasStake, IsTyped, negate-stake, opposite}
use go_book.Betting.Enveloped.{build_envelope-ok, wager_kind, wager_kind_short, wager_settled_type}
use go_book.Betting.Legs.{Accounts, legs, legs-IsBalanced, paid}
use go_book.Betting.Payloads.{Payload, envelope_of}
use go_book.Betting.Settle.{
  Outcome, SettlementAccountRefs, applied_divisor, leg, next_state, outcome_of, settle_wager,
  settled_payload, settlement_key, settlement_transaction, validate_settlement_refs,
}
use go_book.Betting.Settled.{IsOutcome, outcome_of-IsOutcome}
use go_book.Betting.Settlement.{settlement}
use go_book.Betting.Types.{
  EntityId, SettlementResult, Wager, other_result, result_loss, result_push, result_void,
  result_win, valid_id, wager_accepted, wager_can_transition,
}
use go_book.Betting.Winning.{house_leg}
use go_book.Events.Envelope.{Envelope, Time, is_zero, valid_uuid, wager_settled_event}
use go_book.Ledger.Balance.{InRange}
use go_book.Ledger.Money.{Money}
use go_book.Ledger.Posting.{Posting, validate_transaction}
use go_book.Ledger.Transfers.{validate_transaction_iff}

pub record IsReady (w : Wager) (result : SettlementResult) (refs : SettlementAccountRefs)
    (market_settlement_id : EntityId) (version : ℤ) (actor : EntityId) (at : Time)
    (event_id : EntityId) : Type 0 where
  pub accepted : w.state ≡ wager_accepted
  pub has_stake : HasStake w
  pub typed : IsTyped w
  pub accounts : Accounts refs
  pub named : valid_id market_settlement_id ≡ true
  pub positive_version : pos 0 <ℤ version
  pub by_actor : valid_id actor ≡ true
  pub has_time : is_zero at ≡ false
  pub event_uuid : valid_uuid event_id ≡ true
  pub wager_uuid : valid_uuid w.id ≡ true

settlement_refs-ok :
    (refs : SettlementAccountRefs) (result : SettlementResult)
    → Accounts refs
    → validate_settlement_refs refs result ≡ ok tt
unfolding validate_settlement_refs
settlement_refs-ok refs result a =
    rw (a.escrow_user.0, a.escrow_user.1, a.escrow_house.1) (ground arith)

leg-InRange : (a : Text) (m : Money) → IsInt64 m.cents → InRange (leg a m)
leg-InRange a m h = elim (Bool-cases (eqb_ℤ m.cents (pos 0))) [
  | inl e ↦ rw e tt
  | inr e ↦ rw e (h, tt)
]

legs-InRange :
    (w : Wager) (refs : SettlementAccountRefs) (back : ℤ)
    → HasStake w
    → IsInt64 w.stake.cents
    → pos 0 ≤ℤ back
    → IsInt64 back
    → InRange (legs w refs (paid w back))
legs-InRange w refs back h r lo hi =
    let p = h.positive in
    let house : IsInt64 (w.stake.cents -ℤ back) = omega int_laws in
    (
      omega (arith, neg_parts w.stake.cents),
      All-append (λ (q : Posting). IsInt64 q.amount.cents)
          (leg refs.house_clearing (house_leg w (paid w back)))
          (leg refs.user_funding (paid w back))
          (leg-InRange refs.house_clearing (house_leg w (paid w back)) house)
          (leg-InRange refs.user_funding (paid w back) hi),
    )

can_close :
    (result : SettlementResult) → wager_can_transition wager_accepted (next_state result) ≡ true
unfolding wager_can_transition
can_close result_win = refl
can_close result_loss = refl
can_close result_push = refl
can_close result_void = refl
can_close (other_result _) = refl

settlement_key_named : (id : EntityId) (version : ℤ) → is_blank (settlement_key id version) ≡ false
unfolding settlement_key is_space
settlement_key_named id version = is_blank-cons b'w' _ refl

settlement_named : is_blank (codes "market_settlement") ≡ false
unfolding is_blank
settlement_named = refl

transaction-valid :
    (w : Wager) (result : SettlementResult) (refs : SettlementAccountRefs) (d : ℤ) (o : Outcome)
    (market_settlement_id : EntityId) (version : ℤ) (actor : EntityId)
    → HasStake w
    → IsInt64 w.stake.cents
    → Accounts refs
    → IsOutcome result w refs d o
    → valid_id market_settlement_id ≡ true
    → valid_id actor ≡ true
    → validate_transaction (settlement_transaction w o market_settlement_id version actor) ≡ ok tt
transaction-valid w result refs d o msid version actor h r a g named by =
    (validate_transaction_iff (settlement_transaction w o msid version actor)
        (rw g.legs_are (legs-InRange w refs o.returned.cents h r g.back_nonneg g.back_range))).1
      (
        record {
          known = g.kind_valid;
          keyed = settlement_key_named w.id version;
          by_actor = ground arith;
          source_typed = settlement_named;
          sourced = ground arith;
          reverses = λ e. cc (g.kind_plain.0);
          explained = λ e. cc (g.kind_plain.1);
        },
        rw g.legs_are (legs-IsBalanced w refs o.returned.cents h r a g.back_nonneg g.back_range),
      )

-- Settling never fails on its own transaction.
pub settle_wager_made :
    (w : Wager) (result : SettlementResult) (refs : SettlementAccountRefs)
    (market_settlement_id settlement_id : EntityId) (version : ℤ) (actor : EntityId) (at : Time)
    (event_id : EntityId) (divisor : ℤ) {o : Outcome}
    → IsReady w result refs market_settlement_id version actor at event_id
    → outcome_of result w refs (applied_divisor result divisor) (opposite w.stake) ≡ ok o
    → (e : Envelope Payload) × (settle_wager w result refs market_settlement_id settlement_id
          version actor at event_id divisor
        ≡ ok (
          settlement w result refs market_settlement_id settlement_id version actor at event_id
              divisor o,
          record w { state = next_state result },
          e,
        ))
unfolding settle_wager
settle_wager_made w result refs msid sid version actor at event_id divisor {o} d f =
    let r = d.typed.stake_range in
    let cl : wager_can_transition w.state (next_state result) ≡ true =
      rw d.accepted (can_close result) in
    let g =
      outcome_of-IsOutcome result w refs (applied_divisor result divisor) d.has_stake d.typed f in
    (
      envelope_of event_id w.id (codes "wager") version wager_settled_event at
          (settled_payload w result o),
      rw (
        settlement_refs-ok refs result d.accounts,
        cl,
        negate-stake w d.has_stake r,
        f,
        transaction-valid w result refs (applied_divisor result divisor) o msid version actor
            d.has_stake r d.accounts g d.named d.by_actor,
        build_envelope-ok event_id w.id (codes "wager") version wager_settled_event at
            (settled_payload w result o) d.event_uuid d.wager_uuid wager_kind wager_kind_short
            d.positive_version wager_settled_type d.has_time,
      ),
    )
