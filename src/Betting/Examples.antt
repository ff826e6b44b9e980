-- ===== src/Betting/Examples.antt =====
-- Runs of the betting commands, and their theorems at a concrete wager.
mod Placing
mod Markets
use go_book.Base.{[], arith, refl, ◌∷◌, ◌≡◌}
use go_book.Base.Int.{negsuc, pos, quot, rem, wrap64, ◌*ℤ◌, ◌+ℤ◌, ◌-ℤ◌}
use go_book.Base.Result.{ok}
use go_book.Base.Text.{Text, byte_length, codes, is_blank, is_space, trim_space}
use go_book.Betting.Accept.{AcceptWagerResult, accept_wager, posting}
use go_book.Betting.Accepted.{
  HasStake, IsAcceptable, IsTyped, accept_wager_total, acceptance_postings, opposite,
}
use go_book.Betting.Course.{IsOnward, Reaches-IsOnward}
use go_book.Betting.Escrow.{IsKept, escrow_holds_the_stake}
use go_book.Betting.Legs.{Accounts}
use go_book.Betting.Life.{Book, accepts, after, at_once, later, settles, to_acceptance}
use go_book.Betting.Payloads.{Payload}
use go_book.Betting.Settle.{
  Outcome, SettlementAccountRefs, dead_heat_split, outcome_of, settle_wager, win_outcome, won_on,
}
use go_book.Betting.Settleable.{IsReady, settle_wager_made}
use go_book.Betting.Settlement.{IsSettled, settle_wager-IsSettled, settlement}
use go_book.Betting.Types.{
  EntityId, Wager, funding_user_cash, result_win, validate_funding, validate_wager,
  validate_wager_state, wager_accepted, wager_pending, wager_settled,
}
use go_book.Events.Envelope.{Envelope, valid_uuid}
use go_book.Ledger.Money.{Money, add, cad, negate, new_money, overflows, validate_currency}
use go_book.Ledger.Odds.{profit, returned, rounded, validate_odds}
use go_book.Ledger.Posting.{wager_win}

abbrev pub wager_uuid : Text
wager_uuid = codes "11111111-1111-4111-8111-111111111111"

abbrev pub event_uuid : Text
event_uuid = codes "22222222-2222-4222-8222-222222222222"

abbrev pub market_uuid : Text
market_uuid = codes "33333333-3333-4333-8333-333333333333"

abbrev pub admin : EntityId
admin = codes "admin"

abbrev pub member : EntityId
member = codes "member"

abbrev pub ten : Money
ten = record { cents = pos 1000; currency = cad }

-- Ten dollars at +150.
abbrev pub waiting : Wager
waiting = record {
  id = wager_uuid;
  user_id = member;
  market_id = market_uuid;
  selection_id = codes "blue";
  funding = funding_user_cash;
  stake = ten;
  accepted_odds = pos 150;
  accepted_terms = codes "Blue wins";
  potential_profit = record { cents = pos 1500; currency = cad };
  state = wager_pending;
  idempotency_key = codes "key";
  placed_by = member;
  placed_at = 5;
}

abbrev pub taken : Wager
taken = record waiting { state = wager_accepted }

abbrev pub closed : Wager
closed = record waiting { state = wager_settled }

abbrev pub accounts : SettlementAccountRefs
accounts = record {
  user_funding = codes "cash";
  escrow = codes "escrow";
  house_clearing = codes "house";
}

pub has_stake : HasStake waiting
unfolding validate_currency
has_stake = record { currency = refl; positive = omega arith }

taken_stake : HasStake taken
unfolding validate_currency
taken_stake = record { currency = refl; positive = omega arith }

pub typed : IsTyped waiting
typed = record { stake_range = omega arith; profit_range = omega arith; odds_range = omega arith }

pub taken-IsTyped : IsTyped taken
taken-IsTyped = record {
  stake_range = omega arith;
  profit_range = omega arith;
  odds_range = omega arith;
}

accounts_apart : Accounts accounts
unfolding is_blank trim_space is_space
accounts_apart = record {
  escrow_house = (refl, refl, λ e. ground arith);
  escrow_user = (refl, refl, λ e. ground arith);
  house_user = (refl, refl, λ e. ground arith);
}

acceptable : IsAcceptable waiting admin 7 (to_acceptance accounts) event_uuid
unfolding validate_wager is_blank trim_space is_space validate_funding validate_currency
    validate_odds validate_wager_state byte_length valid_uuid
acceptable = record {
  valid = refl;
  pending = refl;
  by_actor = refl;
  apart = (refl, refl, λ e. ground arith);
  has_time = refl;
  event_named = refl;
  event_uuid = refl;
  wager_uuid = refl;
}

accept_wager_total_example :
    (r : AcceptWagerResult) × (accept_wager waiting admin 7 (to_acceptance accounts) event_uuid
      ≡ ok r)
    × (r.wager ≡ record waiting { state = wager_accepted })
    × (r.transaction.postings ≡ acceptance_postings waiting (to_acceptance accounts))
accept_wager_total_example =
    accept_wager_total waiting admin 7 (to_acceptance accounts) event_uuid typed acceptable

accepting :
    (r : AcceptWagerResult) × (accept_wager waiting admin 7 (to_acceptance accounts) event_uuid
      ≡ ok r)
    × (r.wager ≡ taken)
    × (r.transaction.postings ≡ acceptance_postings waiting (to_acceptance accounts))
accepting = accept_wager_total waiting admin 7 (to_acceptance accounts) event_uuid typed acceptable

-- A dead heat of two: five dollars ride and win 7.50, the other five are lost.
abbrev half_win : Outcome
half_win = record {
  profit = record { cents = pos 750; currency = cad };
  returned = record { cents = pos 1250; currency = cad };
  postings =
      posting (codes "escrow") (record { cents = negsuc 999; currency = cad })
      ∷ posting (codes "house") (record { cents = negsuc 249; currency = cad })
      ∷ posting (codes "cash") (record { cents = pos 1250; currency = cad })
      ∷ [];
  kind = wager_win;
}

half_win_ok : outcome_of result_win taken accounts (pos 2) (opposite ten) ≡ ok half_win
unfolding outcome_of win_outcome won_on dead_heat_split returned profit validate_odds
    validate_currency rounded quot rem add negate new_money overflows wrap64 ◌*ℤ◌ ◌+ℤ◌ ◌-ℤ◌
half_win_ok = refl

ready : IsReady taken result_win accounts (codes "settlement") (pos 1) admin 9 event_uuid
unfolding is_blank trim_space is_space valid_uuid
ready = record {
  accepted = refl;
  has_stake = taken_stake;
  typed = taken-IsTyped;
  accounts = accounts_apart;
  named = refl;
  positive_version = omega arith;
  by_actor = refl;
  has_time = refl;
  event_uuid = refl;
  wager_uuid = refl;
}

settling :
    (e : Envelope Payload) × (settle_wager taken result_win accounts
        (codes "settlement")
        (codes "s1")
        (pos 1)
        admin
        9
        event_uuid
        (pos 2)
      ≡ ok (
        settlement taken result_win accounts
            (codes "settlement")
            (codes "s1")
            (pos 1)
            admin
            9
            event_uuid
            (pos 2)
            half_win,
        closed,
        e,
      ))
settling =
    settle_wager_made taken result_win accounts (codes "settlement") (codes "s1") (pos 1) admin 9
      event_uuid (pos 2) ready half_win_ok

settle_wager-IsSettled_example :
    IsSettled taken result_win accounts
      (pos 2)
      (pos 1)
      (settlement taken result_win accounts
        (codes "settlement")
        (codes "s1")
        (pos 1)
        admin
        9
        event_uuid
        (pos 2)
        half_win)
      closed
settle_wager-IsSettled_example =
    settle_wager-IsSettled taken result_win accounts (codes "settlement") (codes "s1") (pos 1) admin
      9 event_uuid (pos 2) taken_stake taken-IsTyped accounts_apart settling.1

-- The wager is accepted.
abbrev empty_book : Book
empty_book = record { wager = waiting; postings = [] }

abbrev open_book : Book
open_book = after empty_book accepting.0.wager accepting.0.transaction.postings

escrow_holds_the_stake_example : IsKept accounts open_book
escrow_holds_the_stake_example =
    escrow_holds_the_stake accounts waiting accounts_apart typed has_stake refl
      (later at_once (accepts empty_book admin 7 event_uuid accepting.1))

-- The wager is in play and its stake in escrow; then it is settled.
abbrev taken_book : Book
taken_book = record {
  wager = taken;
  postings = acceptance_postings waiting (to_acceptance accounts);
}

taken_book-IsKept : IsKept accounts taken_book
unfolding ◌+ℤ◌
taken_book-IsKept = record {
  typed = taken-IsTyped;
  has_stake = taken_stake;
  in_escrow = refl;
  no_cent_lost = refl;
}

abbrev closed_book : Book
closed_book = after taken_book closed half_win.postings

Reaches-IsOnward_example : IsKept accounts closed_book × IsOnward taken_book closed_book
Reaches-IsOnward_example = Reaches-IsOnward accounts accounts_apart taken_book-IsKept (
    later at_once (
      settles taken_book result_win (codes "settlement") (codes "s1") (pos 1) admin 9 event_uuid
        (pos 2) settling.1))
