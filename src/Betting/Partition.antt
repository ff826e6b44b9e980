-- ===== src/Betting/Partition.antt =====
-- internal/betting/settle.go, the accepted wagers of a market. `sort.Slice` by ID is an insertion sort:
-- wagers have IDs of their own, so that the order is the only one.
-- `sort.Slice(accepted, …)`
use go_book.Base.{List, [], if◌then◌else◌, ◌∷◌}
use go_book.Base.Result.{Result, ok, require, ◌>>=◌, ◌>>◌}
use go_book.Base.Text.{text_eq, text_lt}
use go_book.Betting.Errors.{Error, wager_market_mismatch}
use go_book.Betting.Types.{EntityId, Wager, is_accepted}

unfoldable pub insert_by_id : Wager → List Wager → List Wager
insert_by_id w [] = w ∷ []
insert_by_id w (v ∷ vs) = if text_lt v.id w.id then v ∷ insert_by_id w vs else w ∷ v ∷ vs

unfoldable pub sort_by_id : List Wager → List Wager
unfolding insert_by_id
sort_by_id [] = []
sort_by_id (w ∷ ws) = insert_by_id w (sort_by_id ws)

-- The accepted wagers of the market, and the others, each in the given order.
unfoldable pub partition_wagers : EntityId → List Wager → Result Error (List Wager × List Wager)
partition_wagers market_id [] = ok ([], [])
partition_wagers market_id (w ∷ ws) = do
  require (text_eq w.market_id market_id) wager_market_mismatch
  rest ← partition_wagers market_id ws
  ok (if is_accepted w.state then (w ∷ rest.0, rest.1) else (rest.0, w ∷ rest.1))

-- `splitAcceptedWagers`: the accepted ones sorted, and those that go to the result unchanged.
unfoldable pub split_accepted_wagers :
    EntityId → List Wager → Result Error (List Wager × List Wager)
unfolding partition_wagers sort_by_id
split_accepted_wagers market_id wagers = do
  parts ← partition_wagers market_id wagers
  ok (sort_by_id parts.0, parts.1)
