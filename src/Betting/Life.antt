-- ===== src/Betting/Life.antt =====
-- The life of one wager and the postings that the book has made for it, as a relation of the commands
-- that can follow one another.
use go_book.Base.{List, [], ◌++◌, ◌≡◌}
use go_book.Base.Int.{ℤ}
use go_book.Base.Result.{ok}
use go_book.Base.Text.{Text}
use go_book.Betting.Accept.{
  AcceptWagerResult, AcceptanceAccountRefs, accept_wager, cancel_wager, reject_wager,
}
use go_book.Betting.Payloads.{Payload}
use go_book.Betting.Settle.{SettlementAccountRefs, WagerSettlement, settle_wager}
use go_book.Betting.Types.{EntityId, SettlementResult, Wager}
use go_book.Betting.Unwind.{VoidWagerAccountRefs, reduce_wager, void_wager}
use go_book.Events.Envelope.{Envelope, Time}
use go_book.Ledger.Money.{Money}
use go_book.Ledger.Posting.{Posting, Transaction}

pub record Book : Type 0 where
  pub wager : Wager
  pub postings : List Posting

abbrev pub to_acceptance : SettlementAccountRefs → AcceptanceAccountRefs
to_acceptance refs = record { user_funding = refs.user_funding; escrow = refs.escrow }

abbrev pub to_void : SettlementAccountRefs → VoidWagerAccountRefs
to_void refs = record { user_funding = refs.user_funding; escrow = refs.escrow }

abbrev pub after : Book → Wager → List Posting → Book
after b w ps = record { wager = w; postings = b.postings ++ ps }

-- One command that succeeds, on the member's account, the escrow and the house's account.
pub data Step (refs : SettlementAccountRefs) : Book → Book → Type 0 where
  accepts :
      (b : Book) (actor : EntityId) (at : Time) (event_id : EntityId) {r : AcceptWagerResult}
      → accept_wager b.wager actor at (to_acceptance refs) event_id ≡ ok r
      → Step refs b (after b r.wager r.transaction.postings)
  rejects :
      (b : Book) (actor : EntityId) (reason : Text) {w : Wager}
      → reject_wager b.wager actor reason ≡ ok w
      → Step refs b (after b w [])
  cancels :
      (b : Book) (actor : EntityId) {w : Wager}
      → cancel_wager b.wager actor ≡ ok w
      → Step refs b (after b w [])
  voids :
      (b : Book) (actor : EntityId) (reason : Text) (at : Time) {w : Wager} {t : Transaction}
      → void_wager b.wager actor reason (to_void refs) at ≡ ok (w, t)
      → Step refs b (after b w t.postings)
  reduces :
      (b : Book) (new : Money) (actor : EntityId) (reason : Text) (at : Time) {w : Wager}
      {m : Money} {t : Transaction}
      → reduce_wager b.wager new actor reason (to_void refs) at ≡ ok (w, m, t)
      → Step refs b (after b w t.postings)
  settles :
      (b : Book) (result : SettlementResult) (market_settlement_id settlement_id : EntityId)
      (version : ℤ) (actor : EntityId) (at : Time) (event_id : EntityId) (divisor : ℤ)
      {s : WagerSettlement} {w : Wager} {e : Envelope Payload}
      → settle_wager b.wager result refs market_settlement_id settlement_id version actor at
          event_id divisor
        ≡ ok (s, w, e)
      → Step refs b (after b w s.transaction.postings)

pub data Reaches (refs : SettlementAccountRefs) (start : Book) : Book → Type 0 where
  at_once : Reaches refs start start
  later : {b c : Book} → Reaches refs start b → Step refs b c → Reaches refs start c
