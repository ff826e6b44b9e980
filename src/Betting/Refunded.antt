-- ===== src/Betting/Refunded.antt =====
-- The loop of `VoidMarket`: each wager gets its stake back.
use go_book.Base.{
  All, List, Option-cases, [], ap, arith, inl, inr, length, refl, some, suc, sym, ◌++◌, ◌∙◌, ◌∷◌,
  ◌≡◌,
}
use go_book.Base.Int.{add64, neg64, pos, ℤ}
use go_book.Base.Result.{>>=-eq-ok, ok, ok-injective}
use go_book.Betting.Accept.{posting}
use go_book.Betting.Grading.{NotAccepted, settle_one-NotAccepted}
use go_book.Betting.Market.{Dict, lookup, lookup_id, settle_one}
use go_book.Betting.Payloads.{Payload}
use go_book.Betting.Settle.{SettlementAccountRefs, WagerSettlement, outcome_of, settle_wager}
use go_book.Betting.Types.{EntityId, Wager, result_void}
use go_book.Betting.Void.{VoidMarketCommand, Voided, void_each}
use go_book.Events.Envelope.{Envelope, Time}
use go_book.Ledger.Money.{negate}
use mathlib.Core.Path.{subst}
use mathlib.Core.List.{append-nil, append_assoc}

-- The stake goes from escrow to the member, between the accounts that stand under the wager's ID.
abbrev IsRefund : Dict SettlementAccountRefs → Wager → WagerSettlement → Type 0
IsRefund refs w s =
    (r : SettlementAccountRefs) × (lookup w.id refs ≡ some r)
    × (s.transaction.postings
        ≡ posting r.escrow (record { cents = neg64 w.stake.cents; currency = w.stake.currency })
          ∷ posting r.user_funding w.stake
          ∷ [])

-- The settlements give each wager its stake back.
abbrev pub Refunded : Dict SettlementAccountRefs → List Wager → List WagerSettlement → Type 0
Refunded refs [] [] = Unit
Refunded refs [] (_ ∷ _) = ⊥
Refunded refs (_ ∷ _) [] = ⊥
Refunded refs (w ∷ ws) (s ∷ ss) =
    (s.wager_id ≡ w.id)
    × (s.stake ≡ w.stake)
    × (s.result ≡ result_void)
    × (s.returned ≡ w.stake)
    × (s.profit.cents ≡ pos 0)
    × IsRefund refs w s
    × Refunded refs ws ss

pub record Extends (refs : Dict SettlementAccountRefs) (ws : List Wager) (p q : Voided)
    : Type 0 where
  pub new_settlements : List WagerSettlement
  pub new_wagers : List Wager
  pub settlements_are : q.settlements ≡ p.settlements ++ new_settlements
  pub wagers_are : q.wagers ≡ p.wagers ++ new_wagers
  pub refunded : Refunded refs ws new_settlements
  pub closed : All NotAccepted new_wagers
  pub as_many : length new_wagers ≡ length ws

void_refund :
    (w : Wager) (refs : SettlementAccountRefs) (market_settlement_id settlement_id : EntityId)
    (version : ℤ) (actor : EntityId) (at : Time) (event_id : EntityId) (divisor : ℤ)
    {s : WagerSettlement} {w' : Wager} {e : Envelope Payload}
    → settle_wager w result_void refs market_settlement_id settlement_id version actor at event_id
        divisor
      ≡ ok (s, w', e)
    → (s.returned ≡ w.stake)
      × (s.profit.cents ≡ pos 0)
      × (s.transaction.postings
          ≡ posting refs.escrow
              (record { cents = neg64 w.stake.cents; currency = w.stake.currency })
            ∷ posting refs.user_funding w.stake
            ∷ [])
unfolding settle_wager outcome_of negate
void_refund w refs msid sid version actor at event_id divisor d = ground arith

void_one :
    (refs : Dict SettlementAccountRefs) (settlement_ids event_ids : Dict EntityId) (msid : EntityId)
    (version : ℤ) (actor : EntityId) (at : Time) (divisor : ℤ) (w : Wager)
    {done : WagerSettlement × Wager × Envelope Payload}
    → settle_one result_void refs settlement_ids event_ids msid version actor at divisor w ≡ ok done
    → (done.0.returned ≡ w.stake) × (done.0.profit.cents ≡ pos 0) × IsRefund refs w done.0
unfolding settle_one
void_one refs sids eids msid version actor at divisor w {done} d =
    elim (Option-cases (lookup w.id refs)) [
      | inl e ↦ ground arith
      | inr (r, e) ↦
          let settled : settle_wager w result_void r msid (lookup_id w.id sids) version actor at
                (lookup_id w.id eids) divisor
              ≡ ok done =
            ground arith in
          let (back, none_won, moved) =
            void_refund w r msid (lookup_id w.id sids) version actor at (lookup_id w.id eids)
              divisor settled in
          (back, none_won, (r, e, moved))
    ]

abbrev next : Voided → WagerSettlement × Wager × Envelope Payload → Voided
next p done = record {
  wagers = p.wagers ++ (done.1 ∷ []);
  settlements = p.settlements ++ (done.0 ∷ []);
  events = p.events ++ (done.2 ∷ []);
  total_stake = add64 p.total_stake done.0.stake.cents;
}

Extends-one :
    (refs : Dict SettlementAccountRefs) (w : Wager) (ws : List Wager) (p q : Voided)
    (done : WagerSettlement × Wager × Envelope Payload)
    → NotAccepted done.1
      × (done.0.wager_id ≡ w.id)
      × (done.0.result ≡ result_void)
      × (done.0.stake ≡ w.stake)
    → (done.0.returned ≡ w.stake) × (done.0.profit.cents ≡ pos 0) × IsRefund refs w done.0
    → Extends refs ws (next p done) q
    → Extends refs (w ∷ ws) p q
Extends-one refs w ws p q (s, w', e) (closed, same_id, same_result, same_stake)
      (back, none_won, moved) ih =
    record {
      new_settlements = s ∷ ih.new_settlements;
      new_wagers = w' ∷ ih.new_wagers;
      settlements_are = ih.settlements_are ∙ append_assoc p.settlements (s ∷ []) ih.new_settlements;
      wagers_are = ih.wagers_are ∙ append_assoc p.wagers (w' ∷ []) ih.new_wagers;
      refunded = (same_id, same_stake, same_result, back, none_won, moved, ih.refunded);
      closed = (closed, ih.closed);
      as_many = ap suc ih.as_many;
    }

Extends-nothing : (refs : Dict SettlementAccountRefs) (p : Voided) → Extends refs [] p p
Extends-nothing refs p = record {
  new_settlements = [];
  new_wagers = [];
  settlements_are = sym (append-nil p.settlements);
  wagers_are = sym (append-nil p.wagers);
  refunded = tt;
  closed = tt;
  as_many = refl;
}

pub void_each-Extends :
    (c : VoidMarketCommand) (ws : List Wager) (p : Voided) {q : Voided}
    → void_each c ws p ≡ ok q
    → Extends c.refs ws p q
unfolding void_each
void_each-Extends c [] p e = subst (Extends c.refs [] p) (ok-injective e) (Extends-nothing c.refs p)
void_each-Extends c (w ∷ ws) p {q} e =
    let (done, settled, last) =
      >>=-eq-ok
        (settle_one result_void c.refs c.wager_settlement_ids c.wager_event_ids c.settlement_id
          c.version c.actor c.occurred_at (pos 1) w)
        (λ done. void_each c ws (next p done)) e in
    Extends-one c.refs w ws p q done
      (settle_one-NotAccepted result_void c.refs c.wager_settlement_ids c.wager_event_ids
        c.settlement_id c.version c.actor c.occurred_at (pos 1) w settled)
      (void_one c.refs c.wager_settlement_ids c.wager_event_ids c.settlement_id c.version c.actor
        c.occurred_at (pos 1) w settled)
      (void_each-Extends c ws (next p done) last)
