-- ===== src/Betting/Settled.antt =====
-- What settling one wager does, for every result.
use go_book.Base.{[], ap, arith, false, refl, ◌∙◌, ◌∷◌, ◌≡◌, ◌≢◌}
use go_book.Base.Int.{IsInt64, eqb_ℤ, int_laws, pos, ℤ, ◌+ℤ◌, ◌≤ℤ◌, -ℤ_self, -ℤ_zero}
use go_book.Base.Result.{ok, ok-injective}
use go_book.Base.Text.{Text}
use go_book.Betting.Accept.{posting}
use go_book.Betting.Accepted.{HasStake, IsTyped, opposite}
use go_book.Betting.Legs.{legs, paid}
use go_book.Betting.Settle.{Outcome, SettlementAccountRefs, outcome_of, win_outcome}
use go_book.Betting.Types.{
  SettlementResult, Wager, other_result, result_loss, result_push, result_void, result_win,
}
use go_book.Betting.Winning.{riding, split_currency, win_outcome-IsWin}
use go_book.Ledger.Money.{Currency, Money}
use go_book.Ledger.Odds.{profit}
use go_book.Ledger.Posting.{is_reversal, needs_reason, validate_type}
use go_book.Ledger.Profit.{profit-eq}
use mathlib.Core.Path.{subst}

-- The profit of a settlement, and what it pays back.
abbrev pub IsGraded : SettlementResult → Wager → ℤ → ℤ → ℤ → Type 0
IsGraded result_win w divisor won back =
    (back ≡ (riding w divisor).cents +ℤ won)
    × (pos 0 ≤ℤ won)
    × ((riding w divisor).cents ≡ pos 0 → won ≡ pos 0)
    × ((riding w divisor).cents ≢ pos 0
        → profit w.accepted_odds (riding w divisor)
          ≡ ok (record { cents = won; currency = w.stake.currency }))
IsGraded result_loss w divisor won back = (won ≡ pos 0) × (back ≡ pos 0)
IsGraded result_push w divisor won back = (won ≡ pos 0) × (back ≡ w.stake.cents)
IsGraded result_void w divisor won back = (won ≡ pos 0) × (back ≡ w.stake.cents)
IsGraded (other_result _) w divisor won back = ⊥

pub record IsOutcome (result : SettlementResult) (w : Wager) (refs : SettlementAccountRefs) (d : ℤ)
    (o : Outcome) : Type 0 where
  pub graded : IsGraded result w d o.profit.cents o.returned.cents
  pub back_range : IsInt64 o.returned.cents
  pub back_nonneg : pos 0 ≤ℤ o.returned.cents
  pub legs_are : o.postings ≡ legs w refs (paid w o.returned.cents)
  pub kind_valid : validate_type o.kind ≡ ok tt
  pub kind_plain : (is_reversal o.kind ≡ false) × (needs_reason o.kind ≡ false)

paid_eq : (w : Wager) (m : Money) → m.currency ≡ w.stake.currency → m ≡ paid w m.cents
paid_eq w m e =
    ap (λ (c : Currency). let r : Money = record { cents = m.cents; currency = c } in r) e

win-IsOutcome :
    (w : Wager) (refs : SettlementAccountRefs) (d : ℤ) {o : Outcome}
    → HasStake w
    → IsTyped w
    → win_outcome w refs d (opposite w.stake) ≡ ok o
    → IsOutcome result_win w refs d o
unfolding validate_type
win-IsOutcome w refs d {o} h t e =
    let win = win_outcome-IsWin w refs d (opposite w.stake) h t e in
    record {
      graded = (
        win.back_cents,
        win.profit_nonneg,
        win.nothing_rode,
        λ n.
            win.priced n
            ∙ ap ok (
                paid_eq w o.profit (
                  (profit-eq w.accepted_odds (riding w d) t.odds_range (win.priced n)).0
                  ∙ split_currency w.stake d)),
      );
      back_range = win.back_range;
      back_nonneg = rw win.back_cents (omega (int_laws, win.rides_within, win.profit_nonneg));
      legs_are =
          win.legs ∙ ap (λ (m : Money). legs w refs m) (paid_eq w o.returned win.back_currency);
      kind_valid = rw win.kind;
      kind_plain = rw win.kind (refl, refl);
    }

stake_nonzero : (w : Wager) → HasStake w → eqb_ℤ w.stake.cents (pos 0) ≡ false
stake_nonzero w h = let p = h.positive in ground arith

loss-IsOutcome :
    (w : Wager) (refs : SettlementAccountRefs) (d : ℤ) {o : Outcome}
    → HasStake w
    → outcome_of result_loss w refs d (opposite w.stake) ≡ ok o
    → IsOutcome result_loss w refs d o
unfolding outcome_of validate_type
loss-IsOutcome w refs d {o} h e = subst (IsOutcome result_loss w refs d) (ok-injective e) (record {
  graded = (refl, refl);
  back_range = omega arith;
  back_nonneg = omega arith;
  legs_are = rw (-ℤ_zero w.stake.cents, stake_nonzero w h);
  kind_valid = refl;
  kind_plain = (refl, refl);
})

refund-legs :
    (w : Wager) (refs : SettlementAccountRefs)
    → HasStake w
    → posting refs.escrow (opposite w.stake) ∷ posting refs.user_funding w.stake ∷ []
      ≡ legs w refs (paid w w.stake.cents)
refund-legs w refs h = rw (-ℤ_self w.stake.cents, stake_nonzero w h)

push-IsOutcome :
    (w : Wager) (refs : SettlementAccountRefs) (d : ℤ) {o : Outcome}
    → HasStake w
    → IsInt64 w.stake.cents
    → outcome_of result_push w refs d (opposite w.stake) ≡ ok o
    → IsOutcome result_push w refs d o
unfolding outcome_of validate_type
push-IsOutcome w refs d {o} h r e =
    subst (IsOutcome result_push w refs d) (ok-injective e) (record {
      graded = (refl, refl);
      back_range = r;
      back_nonneg = let p = h.positive in omega arith;
      legs_are = refund-legs w refs h;
      kind_valid = refl;
      kind_plain = (refl, refl);
    })

void-IsOutcome :
    (w : Wager) (refs : SettlementAccountRefs) (d : ℤ) {o : Outcome}
    → HasStake w
    → IsInt64 w.stake.cents
    → outcome_of result_void w refs d (opposite w.stake) ≡ ok o
    → IsOutcome result_void w refs d o
unfolding outcome_of validate_type
void-IsOutcome w refs d {o} h r e =
    subst (IsOutcome result_void w refs d) (ok-injective e) (record {
      graded = (refl, refl);
      back_range = r;
      back_nonneg = let p = h.positive in omega arith;
      legs_are = refund-legs w refs h;
      kind_valid = refl;
      kind_plain = (refl, refl);
    })

win_case :
    (w : Wager) (refs : SettlementAccountRefs) (d : ℤ) {o : Outcome}
    → HasStake w
    → IsTyped w
    → outcome_of result_win w refs d (opposite w.stake) ≡ ok o
    → IsOutcome result_win w refs d o
unfolding outcome_of
win_case w refs d h t e = win-IsOutcome w refs d h t e

other_case :
    (x : Text) (w : Wager) (refs : SettlementAccountRefs) (d : ℤ) {o : Outcome}
    → outcome_of (other_result x) w refs d (opposite w.stake) ≡ ok o
    → ⊥
unfolding outcome_of
other_case x w refs d e = cc

pub outcome_of-IsOutcome :
    (result : SettlementResult) (w : Wager) (refs : SettlementAccountRefs) (d : ℤ) {o : Outcome}
    → HasStake w
    → IsTyped w
    → outcome_of result w refs d (opposite w.stake) ≡ ok o
    → IsOutcome result w refs d o
outcome_of-IsOutcome result_win w refs d h t e = win_case w refs d h t e
outcome_of-IsOutcome result_loss w refs d h t e = loss-IsOutcome w refs d h e
outcome_of-IsOutcome result_push w refs d h t e = push-IsOutcome w refs d h t.stake_range e
outcome_of-IsOutcome result_void w refs d h t e = void-IsOutcome w refs d h t.stake_range e
outcome_of-IsOutcome (other_result x) w refs d h t e = absurd (other_case x w refs d e)
