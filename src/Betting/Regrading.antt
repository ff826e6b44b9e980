-- ===== src/Betting/Regrading.antt =====
-- Settling a market as a whole, and settling it again.
use go_book.Base.{
  All, All-append, List, [], ap, arith, inl, inr, length, refl, sym, true, ◌++◌, ◌∙◌, ◌∷◌, ◌≡◌, ◌⊎◌,
}
use go_book.Base.Int.{ℤ}
use go_book.Base.Result.{Result, Result-cases, ok, ok-injective}
use go_book.Base.Text.{codes}
use go_book.Betting.Errors.{Error}
use go_book.Betting.Grading.{
  All-others, Graded, NotAccepted, accepted_of, others_of, settle_each-Extends, split-parts,
}
use go_book.Betting.Market.{
  Progress, SettleMarketCommand, SettleMarketResult, check_settlement, dead_heat_divisor_of,
  settle_each, settle_market, start, totals,
}
use go_book.Betting.Ordered.{AreById, sort_by_id-AreById, sort_by_id-perm}
use go_book.Betting.Partition.{sort_by_id, split_accepted_wagers}
use go_book.Betting.Payloads.{Payload, build_envelope}
use go_book.Betting.Types.{Wager, market_closed, market_settled, market_settlement_pending}
use go_book.Events.Envelope.{Envelope, market_settled_event}
use mathlib.Core.Path.{subst}
use mathlib.Core.List.{Perm}

module _ (c : SettleMarketCommand) where
  abbrev in_order : List Wager
  in_order = sort_by_id (accepted_of c.wagers)

  abbrev finish : Progress → ℤ → Envelope Payload → SettleMarketResult
  finish p divisor e = record {
    market = record c.market { state = market_settled };
    wagers = p.wagers;
    settlements = p.settlements;
    market_event = e;
    wager_events = p.events;
    dead_heat_divisor = divisor;
  }

  pub record IsMarketSettled (r : SettleMarketResult) : Type 0 where
    pub could :
        (c.market.state ≡ market_closed)
        ⊎ (c.market.state ≡ market_settlement_pending)
        ⊎ ((c.market.state ≡ market_settled) × (c.regrade ≡ true))
    pub market_is : r.market ≡ record c.market { state = market_settled }
    pub to_grade : List Wager
    pub rearranged : Perm to_grade (accepted_of c.wagers)
    pub by_id : AreById to_grade
    pub new_wagers : List Wager
    pub wagers_are : r.wagers ≡ others_of c.wagers ++ new_wagers
    pub as_many : length new_wagers ≡ length to_grade
    pub graded : Graded c.outcome to_grade r.settlements
    pub all_closed : All NotAccepted r.wagers

  abbrev Steps : SettleMarketResult → Type 0
  Steps r =
      (divisor : ℤ) × (p : Progress) × (e : Envelope Payload) × (check_settlement c ≡ ok tt)
      × (dead_heat_divisor_of c ≡ ok divisor)
      × (settle_each c divisor in_order (start (others_of c.wagers)) ≡ ok p)
      × (r ≡ finish p divisor e)

  abbrev envelope_for : Progress → Result Error (Envelope Payload)
  envelope_for p =
      build_envelope c.market_event_id c.market.id (codes "market") c.version market_settled_event
        c.occurred_at (totals c.market c.version p)

  settle_market-Steps : {r : SettleMarketResult} → settle_market c ≡ ok r → Steps r
  unfolding settle_market
  settle_market-Steps {r} done = elim (Result-cases (check_settlement c)) [
    | inr (x, f) ↦ ground arith
    | inl (tt, f) ↦ elim (Result-cases (dead_heat_divisor_of c)) [
      | inr (x, g) ↦ ground arith
      | inl (divisor, g) ↦ elim (Result-cases (split_accepted_wagers c.market.id c.wagers)) [
        | inr (x, h) ↦ ground arith
        | inl (parts, h) ↦ elim (Result-cases (settle_each c divisor parts.0 (start parts.1))) [
          | inr (x, k) ↦ ground arith
          | inl (p, k) ↦ elim (Result-cases (envelope_for p)) [
            | inr (x, m) ↦ ground arith
            | inl (e, m) ↦ (
              divisor,
              p,
              e,
              f,
              g,
              subst (λ (q : List Wager × List Wager). settle_each c divisor q.0 (start q.1) ≡ ok p)
                  (split-parts c.market.id c.wagers parts h) k,
              ground arith,
            )
          ]
        ]
      ]
    ]
  ]

-- A grade that succeeds: the market was closed, waited for settlement or was settled and is graded
-- again; it is now settled; the accepted wagers of the list, each as often as it
-- stands there and with no smaller ID after a greater one, have each one settlement of its stake with the
-- result its selection has in the outcome; the result
-- lists the wagers that were not accepted, then as many more as were settled, and none of them is still
-- accepted.
pub settle_market-IsMarketSettled :
    (c : SettleMarketCommand) {r : SettleMarketResult}
    → settle_market c ≡ ok r
    → IsMarketSettled c r
unfolding check_settlement
settle_market-IsMarketSettled c {r} done =
    let (divisor, p, e, checked, _, each, made) = settle_market-Steps c done in
    let x = settle_each-Extends c divisor (in_order c) (start (others_of c.wagers)) each in
    rw made (record {
      could = ground arith;
      market_is = refl;
      to_grade = in_order c;
      rearranged = sort_by_id-perm (accepted_of c.wagers);
      by_id = sort_by_id-AreById (accepted_of c.wagers);
      new_wagers = x.new_wagers;
      wagers_are = x.wagers_are;
      as_many = x.as_many;
      graded = subst (Graded c.outcome (in_order c)) (sym x.settlements_are) x.graded;
      all_closed =
          subst (All NotAccepted) (sym x.wagers_are) (
            All-append NotAccepted (others_of c.wagers) x.new_wagers (All-others c.wagers)
              x.closed);
    })

none_accepted : (ws : List Wager) → All NotAccepted ws → accepted_of ws ≡ []
none_accepted [] h = refl
none_accepted (w ∷ ws) (h, hs) = rw h (none_accepted ws hs)

all_others : (ws : List Wager) → All NotAccepted ws → others_of ws ≡ ws
all_others [] h = refl
all_others (w ∷ ws) (h, hs) = rw h (ap (λ (vs : List Wager). w ∷ vs) (all_others ws hs))

nothing_to_settle :
    (c : SettleMarketCommand) (divisor : ℤ) (ws rest : List Wager) {p : Progress}
    → ws ≡ []
    → settle_each c divisor (sort_by_id ws) (start rest) ≡ ok p
    → p ≡ start rest
unfolding settle_each sort_by_id
nothing_to_settle c divisor ws rest {p} none_left e = sym (
    ok-injective (
      subst (λ (vs : List Wager). settle_each c divisor (sort_by_id vs) (start rest) ≡ ok p)
        none_left e))

-- Grading again, with the wagers a first grade has left, whatever the outcome and the flags: when it
-- succeeds, it makes no settlement and changes no wager, so that nobody is paid twice.
pub settle_market_twice :
    (c d : SettleMarketCommand) {r q : SettleMarketResult}
    → settle_market c ≡ ok r
    → d.wagers ≡ r.wagers
    → settle_market d ≡ ok q
    → (q.settlements ≡ []) × (q.wager_events ≡ []) × (q.wagers ≡ r.wagers)
settle_market_twice c d {r} {q} first same second =
    let (divisor, p, e, checked, _, each, made) = settle_market-Steps d second in
    let closed : All NotAccepted d.wagers =
      subst (All NotAccepted) (sym same) (settle_market-IsMarketSettled c first).all_closed in
    let same_p =
      nothing_to_settle d divisor (accepted_of d.wagers) (others_of d.wagers)
        (none_accepted d.wagers closed) each in
    rw (made, same_p) (refl, refl, all_others d.wagers closed ∙ same)
