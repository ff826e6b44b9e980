-- ===== src/BettingStore/Worked.antt =====
-- What a handled event has settled.
use go_book.Base.{List, Option, ap, none, refl, some, ◌≡◌}
use go_book.Base.Result.{Result, err, ok}
use go_book.Base.Text.{Text, codes}
use go_book.Betting.Market.{start}
use go_book.Betting.Types.{EntityId, MarketState}
use go_book.BettingStore.Matches.{MatchResult, MatchSettleReport, MatchStore, settle_match_markets}
use go_book.BettingStore.Reported.{AreShared, settle_match_markets-IsShared}
use go_book.BettingStore.Worker.{finished, handle, match_result, settle_decoded}
use go_book.Events.Dispatcher.{on_result}
use go_book.Events.Envelope.{Envelope}
use go_book.Events.Payloads.{MatchResultVerifiedPayload}

found_all :
    {S A : Type 0} (start : MatchSettleReport) (next : A → S → S × MatchSettleReport × Option Text)
    (m : S × Result Text A) {s' : S} {report : MatchSettleReport}
    → on_result m (λ cause s. (s, start, some cause)) next ≡ (s', report, none)
    → (a : A) × (m ≡ (m.0, ok a))
found_all start next (s, ok a) h = (a, refl)
found_all start next (s, err cause) h = absurd cc

module _ {S : Type 0} (store : MatchStore S) (payload : MatchResultVerifiedPayload) where
  -- The markets that were found, and how the event shared them out.
  pub record IsGraded (s s' : S) : Type 0 where
    pub markets : List (EntityId × MarketState)
    pub read : S
    pub report : MatchSettleReport
    pub found : store.match_markets_to_settle payload.match_id s ≡ (read, ok markets)
    pub result : MatchResult
    pub of_event :
        (result.match_id ≡ payload.match_id)
        × (result.outcome ≡ payload.outcome)
        × (result.winning_side_id ≡ payload.winning_side_id)
        × (result.verified_result_id ≡ payload.verification_id)
    pub by_worker : result.actor ≡ codes "system:settlement-worker"
    pub shared_out : AreShared store result markets read s' report.settled report.skipped

  graded :
      (s : S) {s' : S} {report : MatchSettleReport}
      → settle_match_markets store (match_result payload) s ≡ (s', report, none)
      → IsGraded s s'
  unfolding settle_match_markets
  graded s {s'} {report} h =
      let (markets, found) = found_all _ _ (store.match_markets_to_settle payload.match_id s) h in
      record {
        markets = markets;
        read = (store.match_markets_to_settle payload.match_id s).0;
        report = report;
        found = found;
        result = match_result payload;
        of_event = (refl, refl, refl, refl);
        by_worker = refl;
        shared_out = settle_match_markets-IsShared store (match_result payload) {s = s} found h;
      }

finished-done :
    {S : Type 0} (m : S × MatchSettleReport × Option Text) {s' : S}
    → finished m ≡ (s', ok tt)
    → m ≡ (s', m.1, none)
unfolding finished
finished-done {S} (s, report, none) {s'} h =
    ap (λ (r : S × Result Text (Unit {0})). (r.0, report, none)) h
finished-done (s, report, some cause) h = absurd cc

module _ {P S : Type 0} (decode : P → Result Text MatchResultVerifiedPayload) where
  -- An event that the settlement worker handles without an error: the markets on the match are found, and
  -- the run from there to the last state takes them one after the other. Each is closed if it was open, the
  -- keys of its selections are read, and then it is settled, once, by what the result says of those keys, in
  -- the name of the worker, or, where the result does not say how to grade them, left at that.
  pub handle-IsGraded :
      (store : MatchStore S) (e : Envelope P) (s : S) {s' : S}
      {payload : MatchResultVerifiedPayload}
      → decode e.payload ≡ ok payload
      → handle decode (some store) e s ≡ (s', ok tt)
      → IsGraded store payload s s'
  unfolding handle settle_decoded
  handle-IsGraded store e s {s'} {payload} d h =
      graded store payload s
        (finished-done (settle_match_markets store (match_result payload) s) (rw d at h))
