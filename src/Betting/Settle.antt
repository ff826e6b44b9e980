-- ===== src/Betting/Settle.antt =====
-- internal/betting/settle.go, the settlement of one wager.
use go_book.Base.{Bool, List, [], false, if◌then◌else◌, true, ◌&&◌, ◌++◌, ◌||◌, ◌∷◌}
use go_book.Base.Int.{eqb_ℤ, ltb_ℤ, pos, quot, sub64, ℤ}
use go_book.Base.Result.{Result, err, fail_if, ok, require, ◌>>=◌, ◌>>◌}
use go_book.Base.Text.{Text, codes, decimal, is_blank}
use go_book.Betting.Accept.{posting}
use go_book.Betting.Errors.{Error, from_ledger, invalid, invalid_transition}
use go_book.Betting.Payloads.{Payload, build_envelope, of_wager_settled}
use go_book.Betting.Types.{
  EntityId, SettlementResult, Wager, WagerState, other_result, result_loss, result_push,
  result_void, result_win, wager_can_transition, wager_settled, wager_voided,
}
use go_book.Events.Envelope.{Envelope, Time, wager_settled_event}
use go_book.Ledger.Balance.{account}
use go_book.Ledger.Money.{Money, add, negate}
use go_book.Ledger.Posting.{
  Posting, Transaction, TransactionType, validate_transaction, wager_loss, wager_refund, wager_win,
}
use go_book.Ledger.Odds

pub record SettlementAccountRefs : Type 0 where
  pub user_funding : Text
  pub escrow : Text
  pub house_clearing : Text

abbrev moves_house : SettlementResult → Bool
moves_house result_win = true
moves_house result_loss = true
moves_house _ = false

unfoldable pub validate_settlement_refs :
    SettlementAccountRefs → SettlementResult → Result Error (Unit {0})
validate_settlement_refs r result = do
  fail_if (is_blank r.user_funding || is_blank r.escrow) invalid
  fail_if (moves_house result && is_blank r.house_clearing) invalid

pub record WagerSettlement : Type 0 where
  pub id : EntityId
  pub wager_id : EntityId
  pub market_settlement_id : EntityId
  pub result : SettlementResult
  pub stake : Money
  pub profit : Money
  pub returned : Money
  pub dead_heat_divisor : ℤ
  pub transaction : Transaction

abbrev at_least_one : ℤ → ℤ
at_least_one divisor = if ltb_ℤ divisor (pos 1) then pos 1 else divisor

-- The part of the stake that won, and the part that did not.
unfoldable pub dead_heat_split : Money → ℤ → Money × Money
dead_heat_split stake divisor =
    let winning = quot stake.cents (at_least_one divisor) in
    (record stake { cents = winning }, record stake { cents = sub64 stake.cents winning })

abbrev pub next_state : SettlementResult → WagerState
next_state result_void = wager_voided
next_state _ = wager_settled

-- A dead heat only ever divides a win.
abbrev pub applied_divisor : SettlementResult → ℤ → ℤ
applied_divisor result_win divisor = at_least_one divisor
applied_divisor _ _ = pos 1

-- What the `switch` on the result computes.
pub record Outcome : Type 0 where
  pub profit : Money
  pub returned : Money
  pub postings : List Posting
  pub kind : TransactionType

-- A leg is only posted when it moves money.
abbrev pub leg : Text → Money → List Posting
leg account amount = if eqb_ℤ amount.cents (pos 0) then [] else (posting account amount ∷ [])

abbrev pub nothing : Wager → Money
nothing w = record { cents = pos 0; currency = w.stake.currency }

-- A stake smaller than the number of tied winners leaves nothing riding.
unfoldable pub won_on : Wager → Money → Result Error Money
won_on w winning =
    if eqb_ℤ winning.cents (pos 0)
    then ok (nothing w)
    else from_ledger (Odds.profit w.accepted_odds winning)

unfoldable pub win_outcome : Wager → SettlementAccountRefs → ℤ → Money → Result Error Outcome
unfolding won_on
win_outcome w refs divisor negated = do
  let winning = (dead_heat_split w.stake divisor).0
  let lost = (dead_heat_split w.stake divisor).1
  won ← won_on w winning
  back ← from_ledger (add winning won)
  let house : Money = record { cents = sub64 lost.cents won.cents; currency = w.stake.currency }
  ok (record {
    profit = won;
    returned = back;
    postings =
        posting refs.escrow negated ∷ (leg refs.house_clearing house ++ leg refs.user_funding back);
    kind = wager_win;
  })

abbrev refund_outcome : Wager → SettlementAccountRefs → Money → Outcome
refund_outcome w refs negated = record {
  profit = nothing w;
  returned = w.stake;
  postings = posting refs.escrow negated ∷ posting refs.user_funding w.stake ∷ [];
  kind = wager_refund;
}

unfoldable pub outcome_of :
    SettlementResult → Wager → SettlementAccountRefs → ℤ → Money → Result Error Outcome
outcome_of result_win w refs divisor negated = win_outcome w refs divisor negated
outcome_of result_loss w refs divisor negated = ok (record {
  profit = nothing w;
  returned = nothing w;
  postings = posting refs.escrow negated ∷ posting refs.house_clearing w.stake ∷ [];
  kind = wager_loss;
})
outcome_of result_push w refs divisor negated = ok (refund_outcome w refs negated)
outcome_of result_void w refs divisor negated = ok (refund_outcome w refs negated)
outcome_of (other_result _) w refs divisor negated = err invalid

unfoldable pub settlement_key : EntityId → ℤ → Text
settlement_key wager_id version =
    codes "wager:" ++ (wager_id ++ (codes ":settlement:v" ++ decimal version))

abbrev pub settlement_transaction : Wager → Outcome → EntityId → ℤ → EntityId → Transaction
settlement_transaction w o market_settlement_id version actor = record {
  kind = o.kind;
  currency = w.stake.currency;
  idempotency_key = settlement_key w.id version;
  actor = actor;
  source_type = codes "market_settlement";
  source_id = market_settlement_id;
  reason = [];
  reversal_of = [];
  postings = o.postings;
}

abbrev pub settled_payload : Wager → SettlementResult → Outcome → Payload
settled_payload w result o = of_wager_settled (record {
  wager_id = w.id;
  user_id = w.user_id;
  result = result;
  stake_cents = w.stake.cents;
  profit_cents = o.profit.cents;
  returned_cents = o.returned.cents;
  currency = w.stake.currency;
})

unfoldable pub settle_wager :
    Wager
    → SettlementResult
    → SettlementAccountRefs
    → EntityId
    → EntityId
    → ℤ
    → EntityId
    → Time
    → EntityId
    → ℤ
    → Result Error (WagerSettlement × Wager × Envelope Payload)
settle_wager w result refs market_settlement_id settlement_id version actor at event_id divisor = do
  validate_settlement_refs refs result
  let ways = applied_divisor result divisor
  require (wager_can_transition w.state (next_state result)) invalid_transition
  negated ← from_ledger (negate w.stake)
  o ← outcome_of result w refs ways negated
  let txn = settlement_transaction w o market_settlement_id version actor
  from_ledger (validate_transaction txn)
  envelope ←
      build_envelope event_id w.id (codes "wager") version wager_settled_event at
        (settled_payload w result o)
  ok (
    record {
      id = settlement_id;
      wager_id = w.id;
      market_settlement_id = market_settlement_id;
      result = result;
      stake = w.stake;
      profit = o.profit;
      returned = o.returned;
      dead_heat_divisor = ways;
      transaction = txn;
    },
    record w { state = next_state result },
    envelope,
  )
