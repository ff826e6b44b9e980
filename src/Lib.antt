-- ===== src/Lib.antt =====
-- go-book is a private sportsbook for the Cabot Cup, a golf competition: members bet on markets,
-- an administrator accepts and grades wagers, and every cent that moves is a balanced ledger
-- transaction. This library models the pure domain code and proves what makes it correct.
--
-- Parts, by file:
--
-- Base: Int (integers over the native numbers, and Go's int64 with its wrap-around), Text
-- (strings, with TrimSpace and the length in bytes), Blank, Result (an error value or a result,
-- with do blocks).
--
-- Ledger (internal/ledger): Money and Odds are money.go and odds.go, Posting is posting.go. Sums,
-- Profit, Balance, Transfers and Returns hold their theorems: an amount is an integer, an
-- operation wraps around as the machine does, and the guards of the source make it exact.
--
-- Pricing (internal/pricing/pricing.go): Floats has the operations of the machine on a float64, a
-- parameter of everything here; Line goes between American odds and probabilities, Reprice is
-- `Reprice` with its loops. Bounds, Floors, Lengths, Repriced and Book hold theorems, and Fixed an
-- arithmetic for the examples.
--
-- Events (internal/events, internal/eventspg): Envelope is envelope.go. A payload is kept as a
-- value: the JSON checks of the source always pass for the structs that the modelled code
-- marshals. Payloads has a payload of payloads.go that consumers read. Backoff is state.go and the
-- delays of dispatcher.go; Dispatcher is its configuration and one tick over any store and
-- consumers. Outbox and Claim are eventspg/store.go over the rows of its tables, Table makes them
-- a store of the dispatcher. Delay, Delivery, Rows, Unique and Steps hold theorems; Steps has the
-- relation of the statements.
--
-- Betting (internal/betting): Types, Errors and Payloads are types.go, errors.go and events.go.
-- Place and Accept are place.go: PlaceWager, AcceptWager, RejectWager and CancelWager. Settle,
-- Partition, Market and Void are settle.go: settleWager, splitAcceptedWagers, SettleMarket with
-- deadHeatDivisor, and VoidMarket. Unwind is voidwager.go and reducewager.go, Adjust is adjust.go.
-- Each command is a function from the records of the source to a result, its guards in the order
-- of the source. Life is the relation of the commands that can follow one another on one wager,
-- Escrow its invariant and Course what it never undoes. The other files hold theorems: Placed,
-- Accepted, Ordered, Winning, Legs, Settled, Settlement, Payable, Settleable, Grading, Regrading,
-- Refunded, Voiding, Unwound, Adjusted, Reversed, Reversible. Parlay is parlayprice.go (Price) and
-- parlay.go (Place and Grade), with theorems in Priced, Distinct, Placed, Graded and Won.
--
-- Competition (internal/competition): Types and Errors are types.go and errors.go; Match is the
-- aggregate of match.go with its helpers, and events.go; Submit, Confirm and Verify are the five
-- commands. Each takes the match and returns the next one with its events: all guards stand before
-- the first assignment, so that an error leaves the match as it was. Run puts the commands
-- together and gives the states they reach. Replay, Inverted, Chain, Shapes, Sound, Confirmed,
-- Verdict, Panic and Fair hold theorems.
--
-- Identity (internal/identity): Types is types.go, Authorize is authorization.go, Session and
-- Service are session.go, Secrets is secrets.go with the making of drafts, which the sign-ins and
-- the rotation call. The store, Base64, SHA-256, the clock, what a reader of random bytes gives,
-- lower case and the parser of email addresses are parameters. Allowed, Active and Issued hold
-- theorems.
--
-- BettingStore (internal/bettingpg): Mapping is mapping.go and Matches is match_settlement.go,
-- over the other calls of the store; Worker is consumer.go, the consumer that runs it. Mapped,
-- Reported and Worked hold theorems.
--
-- CompetitionStore (internal/competitionpg): Stats is stats.go, the consumer that keeps the
-- statistics of the players, over the rows of its tables. Counted and Delivered hold theorems.
--
-- Legacy (internal/migration/legacybook): reconcile.go, the reconciliation of the archived book.
-- Parse reads amounts, odds, results and roles, Records has what is read and reported, Users,
-- Transactions and Wagers are the loops and Reconcile puts them together. Recorded, Matched,
-- Sound, Closed and Accounted hold theorems.
--
-- How the parts meet: betting builds ledger transactions and event envelopes and validates both; a
-- parlay is priced by the lines of pricing; the dispatcher drives consumers over the outbox, and
-- two of them take the verified results of matches to the markets and to the statistics; a
-- competition shares only the form of IDs, times and results with betting, and identity the test
-- of a UUID.
--
-- Conventions. A string is a list of code points. A time is a number of nanoseconds since Go's
-- zero time, zero where IsZero holds, and UTC changes nothing. An int32 or int64 is an integer;
-- theorems that need it say that a value is in range. A map is a list of keys and values with no
-- key twice. An error value is a constructor, its message left out; an error that a store or a
-- consumer gives the dispatcher is its message. A string type with a fixed set of values has one
-- more constructor for any other string. Loops are structural recursion. Two loops of pricing
-- count in the source: the lifting to the floors has one round for each selection and one more,
-- which is shown to be enough, and the walk back to a floor has 32 steps as in the source.
--
-- Not modelled: the ticker of the dispatcher's `Run` and all logging, the SQL stores but for the
-- outbox, the settlement of a match and the statistics of players, the web handlers,
-- configuration, the SQL of the migration and the command line. What floating-point rounding does
-- to a price is left open. IDs, times and random bytes are arguments.
pub mod Base
pub mod Ledger
pub mod Pricing
pub mod Events
pub mod Betting
pub mod Competition
pub mod Identity
pub mod BettingStore
pub mod CompetitionStore
pub mod Legacy
