-- ===== src/Betting/Course.antt =====
-- The course of a wager through the commands: what was agreed stays, and what is closed stays closed.
use go_book.Base.{List, [], ap, arith, inl, inr, refl, sym, ℕ, ◌<◌, ◌∙◌, ◌≡◌, ◌≤◌, ◌⊎◌}
use go_book.Base.Int.{int_laws, neg_part, pos, pos_part, ◌+ℤ◌, ◌<ℤ◌, ◌≤ℤ◌}
use go_book.Betting.Accepted.{accept_wager_moves_stake}
use go_book.Betting.Escrow.{
  IsKept, Step-keeps, cancel_wager-closes, reject_wager-closes, settled_accepted,
}
use go_book.Betting.Legs.{Accounts}
use go_book.Betting.Life.{
  Book, Reaches, Step, accepts, after, at_once, cancels, later, reduces, rejects, settles,
  to_acceptance, to_void, voids,
}
use go_book.Betting.Settle.{SettlementAccountRefs, next_state}
use go_book.Betting.Types.{
  SettlementResult, Wager, WagerState, other_result, result_loss, result_push, result_void,
  result_win, wager_accepted, wager_pending, wager_rejected, wager_voided,
}
use go_book.Betting.Unwound.{reduce_wager-IsReduced, void_wager-IsRefund}
use go_book.Ledger.Money.{Money}
use go_book.Ledger.Posting.{Posting}

-- Waiting, in play, closed.
abbrev stage : WagerState → ℕ
stage wager_pending = 0
stage wager_accepted = 1
stage _ = 2

-- The book `c` continues the book `b`.
pub record IsOnward (b c : Book) : Type 0 where
  pub terms_stand : c.wager ≡ record b.wager {
    stake = c.wager.stake;
    potential_profit = c.wager.potential_profit;
    state = c.wager.state;
  }
  pub stake_no_more : c.wager.stake.cents ≤ℤ b.wager.stake.cents
  pub no_way_back : stage b.wager.state ≤ stage c.wager.state
  pub open_or_same : (stage b.wager.state < 2) ⊎ (c ≡ b)

IsOnward-moved :
    (b : Book) (state : WagerState) (w : Wager) (ps : List Posting)
    → w ≡ record b.wager { state = state }
    → stage b.wager.state < stage state
    → stage state ≤ 2
    → (stage b.wager.state < 2) × IsOnward b (after b w ps)
IsOnward-moved b state w ps e lt le = rw e (
  omega arith,
  record {
    terms_stand = refl;
    stake_no_more = omega int_laws;
    no_way_back = omega arith;
    open_or_same = inl (omega arith);
  },
)

IsOnward-reduced :
    (b : Book) (new : Money) (w : Wager) (refund : Money) (ps : List Posting)
    → w ≡ record b.wager { stake = new; potential_profit = w.potential_profit }
    → b.wager.state ≡ wager_accepted
    → pos 0 <ℤ refund.cents
    → new.cents +ℤ refund.cents ≡ b.wager.stake.cents
    → (stage b.wager.state < 2) × IsOnward b (after b w ps)
IsOnward-reduced b new w refund ps e was p sum = (
  rw was (omega arith),
  record {
    terms_stand =
        e
        ∙ ap
            (λ (v : Wager). record b.wager {
              stake = v.stake;
              potential_profit = w.potential_profit;
              state = v.state;
            })
            (sym e);
    stake_no_more =
        rw (ap (λ (v : Wager). v.stake.cents) e)
          (omega (int_laws, ap pos_part sum, ap neg_part sum));
    no_way_back = rw (ap (λ (v : Wager). v.state) e, was) (omega arith);
    open_or_same = inl (rw was (omega arith));
  },
)

IsOnward-refl : (b : Book) → IsOnward b b
IsOnward-refl b = record {
  terms_stand = refl;
  stake_no_more = omega int_laws;
  no_way_back = omega arith;
  open_or_same = inr refl;
}

IsOnward-trans :
    (b c d : Book) → IsOnward b c → IsOnward c d → stage c.wager.state < 2 → IsOnward b d
IsOnward-trans b c d o n going = record {
  terms_stand =
      n.terms_stand
      ∙ ap
          (λ (v : Wager). record v {
            stake = d.wager.stake;
            potential_profit = d.wager.potential_profit;
            state = d.wager.state;
          })
          o.terms_stand;
  stake_no_more = omega (int_laws, o.stake_no_more, n.stake_no_more);
  no_way_back = omega (arith, o.no_way_back, n.no_way_back);
  open_or_same = inl (omega (arith, o.no_way_back));
}

stage-next : (result : SettlementResult) → stage (next_state result) ≡ 2
stage-next result_win = refl
stage-next result_loss = refl
stage-next result_push = refl
stage-next result_void = refl
stage-next (other_result _) = refl

Step-IsOnward :
    (refs : SettlementAccountRefs) {b c : Book}
    → Accounts refs
    → IsKept refs b
    → Step refs b c
    → (stage b.wager.state < 2) × IsOnward b c
Step-IsOnward refs a k (accepts b actor at event_id {r} e) =
    let (was, now, _, _) =
      accept_wager_moves_stake b.wager actor at (to_acceptance refs) event_id k.typed e in
    IsOnward-moved b wager_accepted r.wager r.transaction.postings now (rw was (omega arith))
      (omega arith)
Step-IsOnward refs a k (rejects b actor reason {w} e) =
    let (was, now) = reject_wager-closes b.wager actor reason e in
    IsOnward-moved b wager_rejected w [] now (rw was (omega arith)) (omega arith)
Step-IsOnward refs a k (cancels b actor {w} e) =
    let (was, now) = cancel_wager-closes b.wager actor e in
    IsOnward-moved b wager_rejected w [] now (rw was (omega arith)) (omega arith)
Step-IsOnward refs a k (voids b actor reason at {w} {t} e) =
    let (was, now, _, _) =
      void_wager-IsRefund b.wager actor reason (to_void refs) at k.typed.stake_range e in
    IsOnward-moved b wager_voided w t.postings now (rw was (omega arith)) (omega arith)
Step-IsOnward refs a k (reduces b new actor reason at {w} {m} {t} e) =
    let r = reduce_wager-IsReduced b.wager new actor reason (to_void refs) at k.typed e in
    IsOnward-reduced b new w m t.postings r.reduced r.was_accepted r.returned_positive r.conserved
Step-IsOnward refs a k (settles b result msid sid version actor at event_id divisor {s} {w} e) =
    let (was, now, _, _) =
      settled_accepted b.wager result refs msid sid version actor at event_id divisor k.has_stake
        k.typed a e in
    IsOnward-moved b (next_state result) w s.transaction.postings now
      (rw (was, stage-next result) (omega arith)) (rw (stage-next result) (omega arith))

-- Whatever commands succeed on a wager that the book holds the escrow of, the member, the market, the
-- selection, the price and all else that was agreed stay as they are, the stake never grows, the wager
-- never goes back to an earlier stage, and one that is closed is left as it is, without a posting.
pub Reaches-IsOnward :
    (refs : SettlementAccountRefs) {b c : Book}
    → Accounts refs
    → IsKept refs b
    → Reaches refs b c
    → IsKept refs c × IsOnward b c
Reaches-IsOnward refs {b} a k at_once = (k, IsOnward-refl b)
Reaches-IsOnward refs {b} a k (later r s) =
    let (kept, o) = Reaches-IsOnward refs a k r in
    let (going, next) = Step-IsOnward refs a kept s in
    (Step-keeps refs a kept s, IsOnward-trans _ _ _ o next going)
