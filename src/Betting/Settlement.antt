-- ===== src/Betting/Settlement.antt =====
-- The settlement of one accepted wager as a whole: who is paid what, and that it cannot run twice.
use go_book.Base.{arith, inl, inr, refl, ◌++◌, ◌≡◌, ◌≢◌, ◌⊎◌}
use go_book.Base.Int.{IsInt64, ℤ}
use go_book.Base.Result.{Result, Result-cases, err, ok}
use go_book.Base.Text.{codes, decimal}
use go_book.Betting.Accepted.{HasStake, IsTyped, negate-stake, opposite}
use go_book.Betting.Errors.{Error}
use go_book.Betting.Legs.{Accounts, Pays, legs-IsBalanced, legs-Pays, paid}
use go_book.Betting.Payloads.{Payload}
use go_book.Betting.Settle.{
  Outcome, SettlementAccountRefs, WagerSettlement, applied_divisor, next_state, outcome_of,
  settle_wager, settlement_key, settlement_transaction,
}
use go_book.Betting.Settled.{IsGraded, outcome_of-IsOutcome}
use go_book.Betting.Types.{
  EntityId, SettlementResult, Wager, other_result, result_loss, result_push, result_void,
  result_win, wager_accepted, wager_can_transition, wager_settled, wager_voided,
}
use go_book.Betting.Winning.{IsShare, riding, riding-IsShare}
use go_book.Events.Envelope.{Envelope, Time}
use go_book.Ledger.Balance.{IsBalanced}
use go_book.Ledger.Posting.{validate_transaction}

pub record IsSettled (w : Wager) (result : SettlementResult) (refs : SettlementAccountRefs)
    (divisor version : ℤ) (s : WagerSettlement) (w' : Wager) : Type 0 where
  pub was_accepted : w.state ≡ wager_accepted
  pub closed : w' ≡ record w { state = next_state result }
  pub ended :
      ((result ≡ result_void) × (w'.state ≡ wager_voided))
      ⊎ ((result ≢ result_void) × (w'.state ≡ wager_settled))
  pub recorded :
      (s.wager_id ≡ w.id)
      × (s.stake ≡ w.stake)
      × (s.result ≡ result)
      × (s.dead_heat_divisor ≡ applied_divisor result divisor)
  pub graded : IsGraded result w (applied_divisor result divisor) s.profit.cents s.returned.cents
  pub rides : IsShare w.stake.cents divisor (riding w (applied_divisor result_win divisor)).cents
  pub pays : Pays w refs s.returned.cents s.transaction.postings
  pub balanced : IsBalanced w.stake.currency s.transaction.postings
  pub keyed :
      s.transaction.idempotency_key
      ≡ codes "wager:" ++ (w.id ++ (codes ":settlement:v" ++ decimal version))

next_state_by :
    (result : SettlementResult)
    → ((result ≡ result_void) × (next_state result ≡ wager_voided))
      ⊎ ((result ≢ result_void) × (next_state result ≡ wager_settled))
next_state_by result_win = inr (λ e. cc, refl)
next_state_by result_loss = inr (λ e. cc, refl)
next_state_by result_push = inr (λ e. cc, refl)
next_state_by result_void = inl (refl, refl)
next_state_by (other_result x) = inr (λ e. cc, refl)

settlement_key_is :
    (id : EntityId) (version : ℤ)
    → settlement_key id version
      ≡ codes "wager:" ++ (id ++ (codes ":settlement:v" ++ decimal version))
unfolding settlement_key
settlement_key_is id version = refl

module _ (w : Wager) (result : SettlementResult) (refs : SettlementAccountRefs)
    (market_settlement_id settlement_id : EntityId) (version : ℤ) (actor : EntityId) (at : Time)
    (event_id : EntityId) (divisor : ℤ) where
  abbrev run : Result Error (WagerSettlement × Wager × Envelope Payload)
  run =
      settle_wager w result refs market_settlement_id settlement_id version actor at event_id
        divisor

  abbrev outcome : Result Error Outcome
  outcome = outcome_of result w refs (applied_divisor result divisor) (opposite w.stake)

  abbrev pub settlement : Outcome → WagerSettlement
  settlement o = record {
    id = settlement_id;
    wager_id = w.id;
    market_settlement_id = market_settlement_id;
    result = result;
    stake = w.stake;
    profit = o.profit;
    returned = o.returned;
    dead_heat_divisor = applied_divisor result divisor;
    transaction = settlement_transaction w o market_settlement_id version actor;
  }

  module _ {s : WagerSettlement} {w' : Wager} {e : Envelope Payload} (h : HasStake w)
      (r : IsInt64 w.stake.cents) (done : run ≡ ok (s, w', e)) where
    no_outcome : (x : Error) → outcome ≡ err x → ⊥
    unfolding settle_wager
    no_outcome x f = ground (arith, negate-stake w h r)

    with_outcome :
        (o : Outcome)
        → outcome ≡ ok o
        → (w.state ≡ wager_accepted)
          × (w' ≡ record w { state = next_state result })
          × (s ≡ settlement o)
          × (validate_transaction (settlement_transaction w o market_settlement_id version actor)
              ≡ ok tt)
    unfolding settle_wager wager_can_transition
    with_outcome o f = ground (arith, negate-stake w h r)

    IsSettled-as :
        (o : Outcome)
        → outcome ≡ ok o
        → IsTyped w
        → Accounts refs
        → IsSettled w result refs divisor version
            (settlement o)
            (record w { state = next_state result })
    IsSettled-as o f t a =
        let g = outcome_of-IsOutcome result w refs (applied_divisor result divisor) h t f in
        let (was, _, _, _) = with_outcome o f in
        record {
          was_accepted = was;
          closed = refl;
          ended = next_state_by result;
          recorded = (refl, refl, refl, refl);
          graded = g.graded;
          rides = riding-IsShare w divisor h.positive;
          pays = rw g.legs_are (legs-Pays w refs (paid w o.returned.cents) a);
          balanced =
              rw g.legs_are
                (legs-IsBalanced w refs o.returned.cents h r a g.back_nonneg g.back_range);
          keyed = settlement_key_is w.id version;
        }

-- A settlement that succeeds, of a wager with a positive stake in a valid currency and three accounts
-- apart: the wager was accepted and is now settled, or voided for a void; a win pays back the part of
-- the stake that rode and the profit on it at the accepted price, where the whole stake rides unless the
-- divisor is above one, and then the stake over the divisor, rounded down to a cent; a loss pays back
-- nothing, a push or a void the stake; escrow gives up exactly the stake, the member gets what is paid back and the house the
-- difference, in postings that balance, under the key of the wager and the version.
pub settle_wager-IsSettled :
    (w : Wager) (result : SettlementResult) (refs : SettlementAccountRefs)
    (market_settlement_id settlement_id : EntityId) (version : ℤ) (actor : EntityId) (at : Time)
    (event_id : EntityId) (divisor : ℤ) {s : WagerSettlement} {w' : Wager} {e : Envelope Payload}
    → HasStake w
    → IsTyped w
    → Accounts refs
    → settle_wager w result refs market_settlement_id settlement_id version actor at event_id
        divisor
      ≡ ok (s, w', e)
    → IsSettled w result refs divisor version s w'
settle_wager-IsSettled w result refs msid sid version actor at event_id divisor {s} {w'} h t a
      done =
    elim (Result-cases (outcome w result refs msid sid version actor at event_id divisor)) [
      | inl (o, f) ↦
          let (_, closed, made, _) =
            with_outcome w result refs msid sid version actor at event_id divisor h t.stake_range
              done o f in
          rw (closed, made)
            (IsSettled-as w result refs msid sid version actor at event_id divisor h t.stake_range
              done o f t a)
      | inr (x, f) ↦ absurd (
          no_outcome w result refs msid sid version actor at event_id divisor h t.stake_range done x
            f)
    ]
