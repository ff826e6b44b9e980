-- ===== src/Betting/Voiding.antt =====
-- Voiding a market: every accepted wager is refunded.
use go_book.Base.{
  All, All-append, List, [], arith, false, inl, inr, length, sym, ℕ, ◌++◌, ◌∙◌, ◌≡◌, ◌⊎◌,
}
use go_book.Base.Int.{pos}
use go_book.Base.Result.{Result, Result-cases, ok}
use go_book.Base.Text.{codes, is_blank}
use go_book.Betting.Errors.{Error}
use go_book.Betting.Grading.{All-others, NotAccepted, accepted_of, others_of, split-parts}
use go_book.Betting.Market.{SettleMarketResult}
use go_book.Betting.Ordered.{AreById, sort_by_id-AreById, sort_by_id-perm}
use go_book.Betting.Partition.{sort_by_id, split_accepted_wagers}
use go_book.Betting.Payloads.{Payload, build_envelope}
use go_book.Betting.Refunded.{Refunded, void_each-Extends}
use go_book.Betting.Types.{
  Wager, market_closed, market_open, market_settlement_pending, market_voided,
}
use go_book.Betting.Void.{
  VoidMarketCommand, Voided, check_void, void_each, void_market, void_totals,
}
use go_book.Events.Envelope.{Envelope, market_settled_event}
use mathlib.Core.Path.{subst}
use mathlib.Core.List.{Perm}

module _ (c : VoidMarketCommand) where
  abbrev to_refund : List Wager
  to_refund = sort_by_id (accepted_of c.wagers)

  pub record IsMarketVoided (r : SettleMarketResult) : Type 0 where
    pub could :
        (c.market.state ≡ market_open)
        ⊎ (c.market.state ≡ market_closed)
        ⊎ (c.market.state ≡ market_settlement_pending)
    pub explained : is_blank c.reason ≡ false
    pub market_is : r.market ≡ record c.market { state = market_voided }
    pub taken_back : List Wager
    pub rearranged : Perm taken_back (accepted_of c.wagers)
    pub by_id : AreById taken_back
    pub new_wagers : List Wager
    pub wagers_are : r.wagers ≡ others_of c.wagers ++ new_wagers
    pub as_many : length new_wagers ≡ length taken_back
    pub refunded : Refunded c.refs taken_back r.settlements
    pub all_closed : All NotAccepted r.wagers

  abbrev begin : List Wager → Voided
  begin others = record { wagers = others; settlements = []; events = []; total_stake = pos 0 }

  abbrev Steps : SettleMarketResult → Type 0
  Steps r =
      (p : Voided) × (check_void c ≡ ok tt)
      × (void_each c to_refund (begin (others_of c.wagers)) ≡ ok p)
      × (r.market ≡ record c.market { state = market_voided })
      × (r.settlements ≡ p.settlements)
      × (r.wagers ≡ p.wagers)

  abbrev envelope_for : ℕ → Voided → Result Error (Envelope Payload)
  envelope_for n p =
      build_envelope c.market_event_id c.market.id (codes "market") c.version market_settled_event
        c.occurred_at (void_totals c n p.total_stake)

  void_market-Steps : {r : SettleMarketResult} → void_market c ≡ ok r → Steps r
  unfolding void_market
  void_market-Steps {r} done = elim (Result-cases (check_void c)) [
    | inr (x, f) ↦ ground arith
    | inl (tt, f) ↦ elim (Result-cases (split_accepted_wagers c.market.id c.wagers)) [
      | inr (x, h) ↦ ground arith
      | inl (parts, h) ↦ elim (Result-cases (void_each c parts.0 (begin parts.1))) [
        | inr (x, k) ↦ ground arith
        | inl (p, k) ↦ elim (Result-cases (envelope_for (length parts.0) p)) [
          | inr (x, m) ↦ ground arith
          | inl (e, m) ↦ (
            p,
            f,
            subst (λ (q : List Wager × List Wager). void_each c q.0 (begin q.1) ≡ ok p)
                (split-parts c.market.id c.wagers parts h) k,
            ground arith,
            ground arith,
            ground arith,
          )
        ]
      ]
    ]
  ]

-- A market that is voided was open, closed or waiting for settlement, and a reason was given; it is
-- now voided; the accepted wagers of the list, each as often as it stands there and with no smaller ID
-- after a greater one, have each got its stake back and no profit, by a transfer of the stake from the
-- wager's escrow account to its member's account; the wagers that were not accepted are passed on and none
-- that is left is accepted.
pub void_market-IsMarketVoided :
    (c : VoidMarketCommand) {r : SettleMarketResult} → void_market c ≡ ok r → IsMarketVoided c r
unfolding check_void
void_market-IsMarketVoided c {r} done =
    let (p, checked, each, market, settled, wagers) = void_market-Steps c done in
    let x = void_each-Extends c (to_refund c) (begin c (others_of c.wagers)) each in
    record {
      could = ground arith;
      explained = ground arith;
      market_is = market;
      taken_back = to_refund c;
      rearranged = sort_by_id-perm (accepted_of c.wagers);
      by_id = sort_by_id-AreById (accepted_of c.wagers);
      new_wagers = x.new_wagers;
      wagers_are = wagers ∙ x.wagers_are;
      as_many = x.as_many;
      refunded =
          subst (Refunded c.refs (to_refund c)) (sym (settled ∙ x.settlements_are)) x.refunded;
      all_closed =
          subst (All NotAccepted) (sym (wagers ∙ x.wagers_are)) (
            All-append NotAccepted (others_of c.wagers) x.new_wagers (All-others c.wagers)
              x.closed);
    }
