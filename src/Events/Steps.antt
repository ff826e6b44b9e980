-- ===== src/Events/Steps.antt =====
-- What any sequence of statements makes of the outbox.
use go_book.Base.{All}
use go_book.Base.Int.{ℤ}
use go_book.Base.Text.{Text}
use go_book.Events.Claim.{claim_batch, publish, record_receipt}
use go_book.Events.Envelope.{Envelope, Time}
use go_book.Events.Outbox.{Outbox, mark_completed, release_stale}
use go_book.Events.Rows.{IsRow, Moves}
use go_book.Events.Unique.{AreUnique}
use go_book.Events.Outbox

module _ {P : Type 0} where
  -- One call of the store, at any time and by any worker, whether it succeeds or is refused.
  pub data Step : Outbox P → Outbox P → Type 0 where
    publishes :
        (o : Outbox P) (now : Time) (e : Envelope P) (max_attempts : ℤ)
        → Step o (publish now e max_attempts o).0
    claims :
        (o : Outbox P) (now : Time) (worker_id : Text) (limit : ℤ)
        → Step o (claim_batch now worker_id limit o).0
    completes : (o : Outbox P) (now : Time) (id : Text) → Step o (mark_completed now id o).0
    retries :
        (o : Outbox P) (id : Text) (at : Time) (cause : Text)
        → Step o (Outbox.mark_retry id at cause o).0
    fails :
        (o : Outbox P) (now : Time) (id cause : Text) → Step o (Outbox.mark_failed now id cause o).0
    releases :
        (o : Outbox P) (now : Time) (older_than : ℤ) → Step o (release_stale now older_than o).0
    records : (o : Outbox P) (consumer id : Text) → Step o (record_receipt consumer id o)

  pub record IsOutbox (o : Outbox P) : Type 0 where
    pub rows_valid : All IsRow o.rows
    pub unique : AreUnique o.rows

  abbrev IsKept : Outbox P → Outbox P → Type 0
  IsKept o o' = IsOutbox o' × Moves o.rows o'.rows
