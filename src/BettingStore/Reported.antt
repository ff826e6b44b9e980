-- ===== src/BettingStore/Reported.antt =====
-- What the report of a settled match says.
use go_book.Base.{
  Bool, Bool-cases, List, Option, Option-cases, [], ap, arith, false, if◌then◌else◌, inl, inr, none,
  refl, some, sym, true, ◌++◌, ◌∙◌, ◌∷◌, ◌≡◌, ◌≢◌, ◌⊎◌,
}
use go_book.Base.Result.{Result, err, ok}
use go_book.Base.Text.{Text}
use go_book.Betting.Types.{EntityId, MarketState, is_market_open, market_open}
use go_book.BettingStore.Mapping.{Keys, Outcomes, build_match_outcome}
use go_book.BettingStore.Matches.{
  MatchResult, MatchSettleReport, MatchStore, SettleMarketRequest, close_if_open, request,
  settle_all, settle_match_markets, settle_one,
}
use go_book.Competition.Verify.{is_open}
use go_book.Events.Dispatcher.{on_result}
use mathlib.Core.Path.{subst}
use mathlib.Core.List.{append_assoc, append-nil}

on_result-ok :
    {S A B : Type 0} (m : S × Result Text A) (next : A → S → S × Result Text B) {s' : S} {b : B}
    → on_result m (λ cause s. (s, err cause)) next ≡ (s', ok b)
    → (a : A) × (m ≡ (m.0, ok a)) × (next a m.0 ≡ (s', ok b))
on_result-ok (s, ok a) next h = (a, refl, h)
on_result-ok (s, err cause) next h = cc

on_result-all :
    {S A R : Type 0} (m : S × Result Text A) (report : R) (next : A → S → S × R × Option Text)
    {s' : S} {new : R}
    → on_result m (λ cause s. (s, report, some cause)) next ≡ (s', new, none)
    → (a : A) × (m ≡ (m.0, ok a)) × (next a m.0 ≡ (s', new, none))
on_result-all (s, ok a) report next h = (a, refl, h)
on_result-all (s, err cause) report next h = cc

answer :
    {S : Type 0} {s s' : S} {a b : Bool}
    → ◌≡◌ {A = S × Result Text Bool} (s, ok a) (s', ok b)
    → a ≡ b
answer e = cc

left_in :
    {S A : Type 0} {s s' : S} {a b : A} → ◌≡◌ {A = S × Result Text A} (s, ok a) (s', ok b) → s ≡ s'
left_in {S} {A} e = ap (λ (r : S × Result Text A). r.0) e

open_cases :
    (state : MarketState)
    → ((state ≡ market_open) × (is_market_open state ≡ true))
      ⊎ ((state ≢ market_open) × (is_market_open state ≡ false))
open_cases state = elim (Bool-cases (is_market_open state)) [
  | inl is_open ↦ inl (ground arith, is_open)
  | inr is_shut ↦ inr (λ e. cc (rw e at is_shut), is_shut)
]

module _ {S : Type 0} (store : MatchStore S) (m : MatchResult) where
  -- The market is closed first if it was open, and then the keys of its selections are read.
  abbrev IsRead : EntityId × MarketState → S → Keys → S → Type 0
  IsRead (id, state) s keys read =
      (closed : S) × (((state ≡ market_open) × (store.close_market id m.actor s ≡ (closed, ok tt)))
        ⊎ ((state ≢ market_open) × (closed ≡ s)))
      × (store.selection_semantic_keys id closed ≡ (read, ok keys))

  -- Between the two states the market was settled, once, by the outcome that the keys and the result ask
  -- for, in the name of the actor.
  pub record IsSettledBy (market : EntityId × MarketState) (s s' : S) : Type 0 where
    pub keys : Keys
    pub read : S
    pub outcome : Outcomes
    pub were_read : IsRead market s keys read
    pub mapped : build_match_outcome keys m.outcome m.winning_side_id ≡ some outcome
    pub asked : SettleMarketRequest
    pub for_market : (asked.market_id ≡ market.0) × (asked.outcome ≡ outcome)
    pub on_the_word :
        (asked.actor_user_id ≡ m.actor)
        × (asked.verified_result_id ≡ m.verified_result_id)
        × (asked.dead_heat ≡ false)
    pub was_settled : store.settle_market asked read ≡ (s', ok tt)

  -- The result does not say how its selections are to be graded: nothing follows the reading.
  pub record IsSkipped (market : EntityId × MarketState) (s s' : S) : Type 0 where
    pub keys : Keys
    pub were_read : IsRead market s keys s'
    pub unmapped : build_match_outcome keys m.outcome m.winning_side_id ≡ none

  -- From one state to another the markets, one after the other, were each settled or skipped.
  pub data AreShared
      : List (EntityId × MarketState) → S → S → List EntityId → List EntityId → Type 0 where
    nobody : {s : S} → AreShared [] s s [] []
    one_settled :
        {market : EntityId × MarketState} {all : List (EntityId × MarketState)} {s s1 s' : S}
        {settled skipped : List EntityId}
        → IsSettledBy market s s1
        → AreShared all s1 s' settled skipped
        → AreShared (market ∷ all) s s' (market.0 ∷ settled) skipped
    one_skipped :
        {market : EntityId × MarketState} {all : List (EntityId × MarketState)} {s s1 s' : S}
        {settled skipped : List EntityId}
        → IsSkipped market s s1
        → AreShared all s1 s' settled skipped
        → AreShared (market ∷ all) s s' settled (market.0 ∷ skipped)

  abbrev IsDone : EntityId × MarketState → S → S → Bool → Type 0
  IsDone market s s' true = IsSettledBy market s s'
  IsDone market s s' false = IsSkipped market s s'

  close_if_open-IsRead :
      (market : EntityId × MarketState) (s s1 s2 : S) (keys : Keys)
      → close_if_open store m market s ≡ (s1, ok tt)
      → store.selection_semantic_keys market.0 s1 ≡ (s2, ok keys)
      → IsRead market s keys s2
  unfolding close_if_open
  close_if_open-IsRead (id, state) s s1 s2 keys closed read = elim (open_cases state) [
    | inl (was_open, e) ↦ (s1, inl (was_open, rw e at closed), read)
    | inr (was_shut, e) ↦ (s1, inr (was_shut, sym (left_in (rw e at closed))), read)
  ]

  settle_one-IsDone :
      (market : EntityId × MarketState) (s : S) {s' : S} (b : Bool)
      → settle_one store m market s ≡ (s', ok b)
      → IsDone market s s' b
  unfolding settle_one
  settle_one-IsDone market s {s'} b h =
      let (_, closed, rest) = on_result-ok (close_if_open store m market s) _ h in
      let s1 = (close_if_open store m market s).0 in
      let (keys, were_read, last) =
        on_result-ok (store.selection_semantic_keys market.0 s1) _ rest in
      let s2 = (store.selection_semantic_keys market.0 s1).0 in
      let read = close_if_open-IsRead market s s1 s2 keys closed were_read in
      elim (Option-cases (build_match_outcome keys m.outcome m.winning_side_id)) [
        | inl unmapped ↦
            let here = rw unmapped at last in
            let same : false ≡ b = answer here in
            rw (← same) (record {
              keys = keys;
              were_read = subst (IsRead market s keys) (left_in here) read;
              unmapped = unmapped;
            })
        | inr (outcome, mapped) ↦
            let (_, settled, end) =
              on_result-ok (store.settle_market (request m market.0 outcome) s2) _
                (rw mapped at last) in
            let same : true ≡ b = answer end in
            let s3 = (store.settle_market (request m market.0 outcome) s2).0 in
            rw (← same) (record {
              keys = keys;
              read = s2;
              outcome = outcome;
              were_read = read;
              mapped = mapped;
              asked = request m market.0 outcome;
              for_market = (refl, refl);
              on_the_word = (refl, refl, refl);
              was_settled =
                  subst (λ x. store.settle_market (request m market.0 outcome) s2 ≡ (x, ok tt))
                    (left_in end) settled;
            })
      ]

  -- The markets of a list that a report adds to another.
  pub record IsAdded (markets : List (EntityId × MarketState)) (s s' : S)
      (old new : MatchSettleReport) : Type 0 where
    pub settled : List EntityId
    pub skipped : List EntityId
    pub shared_out : AreShared markets s s' settled skipped
    pub settled_are : new.settled ≡ old.settled ++ settled
    pub skipped_are : new.skipped ≡ old.skipped ++ skipped

  abbrev reported : MatchSettleReport → EntityId → Bool → MatchSettleReport
  reported old id b =
      if b
      then record old { settled = old.settled ++ id ∷ [] }
      else record old { skipped = old.skipped ++ id ∷ [] }

  added :
      {markets : List (EntityId × MarketState)} {s s1 s' : S} {old new : MatchSettleReport}
      (market : EntityId × MarketState) (b : Bool)
      → IsDone market s s1 b
      → IsAdded markets s1 s' (reported old market.0 b) new
      → IsAdded (market ∷ markets) s s' old new
  added {old = old} market true done a = record {
    settled = market.0 ∷ a.settled;
    skipped = a.skipped;
    shared_out = one_settled done a.shared_out;
    settled_are = a.settled_are ∙ append_assoc old.settled (market.0 ∷ []) a.settled;
    skipped_are = a.skipped_are;
  }
  added {old = old} market false done a = record {
    settled = a.settled;
    skipped = market.0 ∷ a.skipped;
    shared_out = one_skipped done a.shared_out;
    settled_are = a.settled_are;
    skipped_are = a.skipped_are ∙ append_assoc old.skipped (market.0 ∷ []) a.skipped;
  }

  settle_all-IsAdded :
      (markets : List (EntityId × MarketState)) (old : MatchSettleReport) (s : S) {s' : S}
      {new : MatchSettleReport}
      → settle_all store m markets old s ≡ (s', new, none)
      → IsAdded markets s s' old new
  unfolding settle_all
  settle_all-IsAdded [] old s {s'} {new} h =
      let same : old ≡ new = ap (λ (t : S × MatchSettleReport × Option Text). t.1) h in
      let stays : s ≡ s' = ap (λ (t : S × MatchSettleReport × Option Text). t.0) h in
      rw (← same) (record {
        settled = [];
        skipped = [];
        shared_out = subst (λ x. AreShared [] s x [] []) stays nobody;
        settled_are = sym (append-nil old.settled);
        skipped_are = sym (append-nil old.skipped);
      })
  settle_all-IsAdded (market ∷ markets) old s {s'} {new} h =
      let (b, done, rest) = on_result-all (settle_one store m market s) old _ h in
      let next = settle_all-IsAdded markets _ (settle_one store m market s).0 rest in
      added market b (settle_one-IsDone market s b done) next

  -- When the markets on a verified match are settled without an error, the run from the state after
  -- their reading to the last state is one settlement or one skip after the other, of exactly the markets
  -- that were found, in their order: each settled one by the outcome that the result has on the keys of its
  -- selections, each skipped one because the result does not say how to grade the selections read.
  pub settle_match_markets-IsShared :
      {s s1 s' : S} {markets : List (EntityId × MarketState)} {report : MatchSettleReport}
      → store.match_markets_to_settle m.match_id s ≡ (s1, ok markets)
      → settle_match_markets store m s ≡ (s', report, none)
      → AreShared markets s1 s' report.settled report.skipped
  unfolding settle_match_markets
  settle_match_markets-IsShared {markets = markets} {report = report} found h =
      let a = settle_all-IsAdded markets _ _ (rw found at h) in
      rw (a.settled_are, a.skipped_are) a.shared_out
