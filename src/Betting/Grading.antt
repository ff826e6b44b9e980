-- ===== src/Betting/Grading.antt =====
-- Grading a market: one settlement for each accepted wager, by the result of its selection, and
-- nobody is paid twice.
use go_book.Base.{
  All, Bool-cases, List, Option, Option-cases, [], ap, arith, false, if◌then◌else◌, inl, inr,
  length, none, refl, some, suc, sym, ◌++◌, ◌∙◌, ◌∷◌, ◌≡◌,
}
use go_book.Base.Int.{ℤ}
use go_book.Base.Result.{>>=-eq-ok, Result, err, ok, ok-injective, require, ◌>>=◌, ◌>>◌}
use go_book.Base.Text.{text_eq}
use go_book.Betting.Errors.{Error, incomplete_outcome, wager_market_mismatch}
use go_book.Betting.Market.{
  Dict, MarketOutcome, Progress, SettleMarketCommand, added, bump, lookup, lookup_id, or_fail,
  record_settlement, settle_each, settle_one,
}
use go_book.Betting.Partition.{partition_wagers, sort_by_id, split_accepted_wagers}
use go_book.Betting.Payloads.{Payload}
use go_book.Betting.Settle.{SettlementAccountRefs, WagerSettlement, settle_wager}
use go_book.Betting.Types.{
  EntityId, SettlementResult, Wager, is_accepted, other_result, result_loss, result_push,
  result_void, result_win,
}
use go_book.Events.Envelope.{Envelope, Time}
use mathlib.Core.Path.{subst}
use mathlib.Core.List.{append-nil, append_assoc}

abbrev pub NotAccepted : Wager → Type 0
NotAccepted w = is_accepted w.state ≡ false

-- The accepted wagers, and the others, in order.
abbrev pub accepted_of : List Wager → List Wager
accepted_of [] = []
accepted_of (w ∷ ws) = if is_accepted w.state then w ∷ accepted_of ws else accepted_of ws

abbrev pub others_of : List Wager → List Wager
others_of [] = []
others_of (w ∷ ws) = if is_accepted w.state then others_of ws else w ∷ others_of ws

abbrev pub IsParted : List Wager → Result Error (List Wager × List Wager) → Type 0
IsParted ws (ok parts) = parts ≡ (accepted_of ws, others_of ws)
IsParted ws (err _) = Unit

partition_step :
    (m : EntityId) (w : Wager) (ws : List Wager) (r : Result Error (List Wager × List Wager))
    → IsParted ws r
    → IsParted (w ∷ ws) (
        require (text_eq w.market_id m) wager_market_mismatch
        >> (r >>= λ rest.
            ok (if is_accepted w.state then (w ∷ rest.0, rest.1) else (rest.0, w ∷ rest.1))))
partition_step m w ws (ok rest) f = ground arith
partition_step m w ws (err x) f = ground arith

partition-IsParted : (m : EntityId) (ws : List Wager) → IsParted ws (partition_wagers m ws)
unfolding partition_wagers
partition-IsParted m [] = refl
partition-IsParted m (w ∷ ws) =
    partition_step m w ws (partition_wagers m ws) (partition-IsParted m ws)

pub split-parts :
    (market_id : EntityId) (wagers : List Wager) (parts : List Wager × List Wager)
    → split_accepted_wagers market_id wagers ≡ ok parts
    → parts ≡ (sort_by_id (accepted_of wagers), others_of wagers)
unfolding split_accepted_wagers
split-parts market_id wagers parts e =
    let (q, parted, last) =
      >>=-eq-ok (partition_wagers market_id wagers) (λ q. ok (sort_by_id q.0, q.1)) e in
    let known : IsParted wagers (ok q) =
      subst (IsParted wagers) parted (partition-IsParted market_id wagers) in
    sym (ok-injective last) ∙ ap (λ (q : List Wager × List Wager). (sort_by_id q.0, q.1)) known

pub All-others : (ws : List Wager) → All NotAccepted (others_of ws)
All-others [] = tt
All-others (w ∷ ws) = elim (Bool-cases (is_accepted w.state)) [
  | inl e ↦ rw e (All-others ws)
  | inr e ↦ rw e (e, All-others ws)
]

-- A settled wager is closed.
settle_wager-NotAccepted :
    (w : Wager) (result : SettlementResult) (refs : SettlementAccountRefs)
    (market_settlement_id settlement_id : EntityId) (version : ℤ) (actor : EntityId) (at : Time)
    (event_id : EntityId) (divisor : ℤ) {s : WagerSettlement} {w' : Wager} {e : Envelope Payload}
    → settle_wager w result refs market_settlement_id settlement_id version actor at event_id
        divisor
      ≡ ok (s, w', e)
    → NotAccepted w' × (s.wager_id ≡ w.id) × (s.result ≡ result) × (s.stake ≡ w.stake)
unfolding settle_wager
settle_wager-NotAccepted w result refs msid sid version actor at event_id divisor d = ground arith

pub settle_one-NotAccepted :
    (result : SettlementResult) (refs : Dict SettlementAccountRefs)
    (settlement_ids event_ids : Dict EntityId) (msid : EntityId) (version : ℤ) (actor : EntityId)
    (at : Time) (divisor : ℤ) (w : Wager) {done : WagerSettlement × Wager × Envelope Payload}
    → settle_one result refs settlement_ids event_ids msid version actor at divisor w ≡ ok done
    → NotAccepted done.1
      × (done.0.wager_id ≡ w.id)
      × (done.0.result ≡ result)
      × (done.0.stake ≡ w.stake)
unfolding settle_one
settle_one-NotAccepted result refs sids eids msid version actor at divisor w {done} d =
    elim (Option-cases (lookup w.id refs)) [
      | inl e ↦ ground arith
      | inr (r, e) ↦ ground (
        arith,
        settle_wager-NotAccepted w result r msid (lookup_id w.id sids) version actor at
            (lookup_id w.id eids) divisor {s = done.0} {w' = done.1} {e = done.2},
      )
    ]

-- The settlements follow the wagers one by one.
abbrev pub Graded : MarketOutcome → List Wager → List WagerSettlement → Type 0
Graded o [] [] = Unit
Graded o [] (_ ∷ _) = ⊥
Graded o (_ ∷ _) [] = ⊥
Graded o (w ∷ ws) (s ∷ ss) =
    (s.wager_id ≡ w.id)
    × (s.stake ≡ w.stake)
    × (lookup w.selection_id o ≡ some s.result)
    × Graded o ws ss

-- What the loop has added to its lists.
pub record Extends (o : MarketOutcome) (ws : List Wager) (p q : Progress) : Type 0 where
  pub new_settlements : List WagerSettlement
  pub new_wagers : List Wager
  pub settlements_are : q.settlements ≡ p.settlements ++ new_settlements
  pub wagers_are : q.wagers ≡ p.wagers ++ new_wagers
  pub graded : Graded o ws new_settlements
  pub closed : All NotAccepted new_wagers
  pub as_many : length new_wagers ≡ length ws

bump_keeps :
    (r : SettlementResult) (p : Progress)
    → ((bump r p).settlements ≡ p.settlements) × ((bump r p).wagers ≡ p.wagers)
bump_keeps result_win p = (refl, refl)
bump_keeps result_loss p = (refl, refl)
bump_keeps result_push p = (refl, refl)
bump_keeps result_void p = (refl, refl)
bump_keeps (other_result _) p = (refl, refl)

Extends-nothing : (o : MarketOutcome) (p : Progress) → Extends o [] p p
Extends-nothing o p = record {
  new_settlements = [];
  new_wagers = [];
  settlements_are = sym (append-nil p.settlements);
  wagers_are = sym (append-nil p.wagers);
  graded = tt;
  closed = tt;
  as_many = refl;
}

or_fail-some : {A : Type 0} (m : Option A) (e : Error) {a : A} → or_fail m e ≡ ok a → m ≡ some a
or_fail-some none e h = cc
or_fail-some (some b) e h = ap some (ok-injective h)

Extends-one :
    (o : MarketOutcome) (w : Wager) (ws : List Wager) (p q : Progress) (result : SettlementResult)
    (done : WagerSettlement × Wager × Envelope Payload)
    → lookup w.selection_id o ≡ some result
    → NotAccepted done.1
      × (done.0.wager_id ≡ w.id)
      × (done.0.result ≡ result)
      × (done.0.stake ≡ w.stake)
    → Extends o ws (record_settlement result done p) q
    → Extends o (w ∷ ws) p q
Extends-one o w ws p q result (s, w', e) found (closed, same_id, same_result, same_stake) ih =
    let (kept_s, kept_w) = bump_keeps result (added (s, w', e) p) in
    record {
      new_settlements = s ∷ ih.new_settlements;
      new_wagers = w' ∷ ih.new_wagers;
      settlements_are =
          ih.settlements_are ∙ rw kept_s (append_assoc p.settlements (s ∷ []) ih.new_settlements);
      wagers_are = ih.wagers_are ∙ rw kept_w (append_assoc p.wagers (w' ∷ []) ih.new_wagers);
      graded = (same_id, same_stake, found ∙ ap some (sym same_result), ih.graded);
      closed = (closed, ih.closed);
      as_many = ap suc ih.as_many;
    }

pub settle_each-Extends :
    (c : SettleMarketCommand) (divisor : ℤ) (ws : List Wager) (p : Progress) {q : Progress}
    → settle_each c divisor ws p ≡ ok q
    → Extends c.outcome ws p q
unfolding settle_each
settle_each-Extends c divisor [] p e =
    subst (Extends c.outcome [] p) (ok-injective e) (Extends-nothing c.outcome p)
settle_each-Extends c divisor (w ∷ ws) p {q} e =
    let one = λ (result : SettlementResult).
      settle_one result c.refs c.wager_settlement_ids c.wager_event_ids c.settlement_id c.version
        c.actor c.occurred_at divisor w in
    let (result, found, rest) =
      >>=-eq-ok (or_fail (lookup w.selection_id c.outcome) incomplete_outcome)
        (λ result.
          one result >>= λ done. settle_each c divisor ws (record_settlement result done p))
        e in
    let (done, settled, last) =
      >>=-eq-ok (one result) (λ done. settle_each c divisor ws (record_settlement result done p))
        rest in
    Extends-one c.outcome w ws p q result done (or_fail-some _ _ found)
      (settle_one-NotAccepted result c.refs c.wager_settlement_ids c.wager_event_ids c.settlement_id
        c.version c.actor c.occurred_at divisor w settled)
      (settle_each-Extends c divisor ws (record_settlement result done p) last)
