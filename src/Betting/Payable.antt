-- ===== src/Betting/Payable.antt =====
-- When a result has an outcome: the amounts fit.
use go_book.Base.{Bool-cases, arith, inl, inr, refl, sym, ◌∙◌, ◌≡◌, ◌⊎◌}
use go_book.Base.Int.{eq_of_parts, eqb_ℤ, int_laws, max_int64, pos, ℤ, ◌+ℤ◌, ◌≤ℤ◌}
use go_book.Base.Result.{Result-cases, ok}
use go_book.Betting.Accepted.{HasStake, IsTyped, opposite}
use go_book.Betting.Settle.{
  Outcome, SettlementAccountRefs, applied_divisor, nothing, outcome_of, win_outcome, won_on,
}
use go_book.Betting.Types.{
  SettlementResult, Wager, other_result, result_loss, result_push, result_void, result_win,
}
use go_book.Betting.Winning.{IsSplit-any, riding, split_currency}
use go_book.Events.Outbox.{failed}
use go_book.Ledger.Money.{Money, add}
use go_book.Ledger.Odds.{profit}
use go_book.Ledger.Profit.{profit-eq, profit-nonneg}
use go_book.Ledger.Sums.{add_exact}

-- Whether an int64 can hold what the result pays back.
abbrev pub CanPay : SettlementResult → Wager → ℤ → Type 0
CanPay result_win w divisor =
    let m = riding w (applied_divisor result_win divisor) in
    (m.cents ≡ pos 0)
    ⊎ ((won : Money) × (profit w.accepted_odds m ≡ ok won) × (m.cents +ℤ won.cents ≤ℤ max_int64))
CanPay result_loss w divisor = Unit
CanPay result_push w divisor = Unit
CanPay result_void w divisor = Unit
CanPay (other_result _) w divisor = ⊥

won_with :
    (w : Wager) (refs : SettlementAccountRefs) (d : ℤ) (negated won back : Money)
    → won_on w (riding w d) ≡ ok won
    → add (riding w d) won ≡ ok back
    → (o : Outcome) × (win_outcome w refs d negated ≡ ok o)
unfolding win_outcome
won_with w refs d negated won back e sum = elim (Result-cases (win_outcome w refs d negated)) [
  | inl made ↦ made
  | inr (x, failed) ↦ absurd (cc (rw (e, sum) at failed))
]

win_paid :
    (w : Wager) (refs : SettlementAccountRefs) (d : ℤ) (negated won : Money)
    → HasStake w
    → IsTyped w
    → won_on w (riding w d) ≡ ok won
    → won.currency ≡ w.stake.currency
    → pos 0 ≤ℤ won.cents
    → (riding w d).cents +ℤ won.cents ≤ℤ max_int64
    → (o : Outcome) × (win_outcome w refs d negated ≡ ok o)
win_paid w refs d negated won h t e cur lo fits =
    let (a, b, _) = IsSplit-any w.stake.cents w.stake.currency d t.stake_range h.positive in
    let ride_cur = split_currency w.stake d in
    let sum =
      add_exact (riding w d) won
        (record { in_range = omega int_laws; valid = rw ride_cur h.currency })
        (record { in_range = omega int_laws; valid = rw cur h.currency }) (ride_cur ∙ sym cur)
        (omega int_laws) in
    won_with w refs d negated won _ e sum

win_exists :
    (w : Wager) (refs : SettlementAccountRefs) (divisor : ℤ) (negated : Money)
    → HasStake w
    → IsTyped w
    → CanPay result_win w divisor
    → (o : Outcome) × (win_outcome w refs (applied_divisor result_win divisor) negated ≡ ok o)
unfolding won_on
win_exists w refs divisor negated h t can =
    let d = applied_divisor result_win divisor in
    let (a, b, _) = IsSplit-any w.stake.cents w.stake.currency d t.stake_range h.positive in
    let zero_won : (riding w d).cents ≡ pos 0 → won_on w (riding w d) ≡ ok (nothing w) =
      λ z. ground arith in
    elim can [
      | inl z ↦
          win_paid w refs d negated (nothing w) h t (zero_won z) refl (omega arith) (omega int_laws)
      | inr (won, priced, fits) ↦ elim (Bool-cases (eqb_ℤ (riding w d).cents (pos 0))) [
        | inl z ↦
            let is_zero = eq_of_parts (riding w d).cents (pos 0) (ground arith) in
            win_paid w refs d negated (nothing w) h t (zero_won is_zero) refl (omega arith)
              (omega int_laws)
        | inr rides ↦
            let (cur, _, _) = profit-eq w.accepted_odds (riding w d) t.odds_range priced in
            win_paid w refs d negated won h t (rw (rides, priced) refl)
              (cur ∙ split_currency w.stake d)
              (profit-nonneg w.accepted_odds (riding w d) t.odds_range priced).0 fits
      ]
    ]

pub outcome_exists :
    (result : SettlementResult) (w : Wager) (refs : SettlementAccountRefs) (divisor : ℤ)
    → HasStake w
    → IsTyped w
    → CanPay result w divisor
    → (o : Outcome) × (outcome_of result w refs (applied_divisor result divisor) (opposite w.stake)
        ≡ ok o)
unfolding outcome_of
outcome_exists result_win w refs divisor h t can =
    win_exists w refs divisor (opposite w.stake) h t can
outcome_exists result_loss w refs divisor h t can = (_, refl)
outcome_exists result_push w refs divisor h t can = (_, refl)
outcome_exists result_void w refs divisor h t can = (_, refl)
outcome_exists (other_result _) w refs divisor h t can = absurd can
