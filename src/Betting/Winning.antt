-- ===== src/Betting/Winning.antt =====
-- The arithmetic of a win: what the parts of a dead heat, the profit and the house's leg amount to.
use go_book.Base.{
  arith, inl, inr, refl, suc, zero, ℕ, ◌*◌, ◌++◌, ◌+◌, ◌/◌, ◌<◌, ◌∙◌, ◌∷◌, ◌≡◌, ◌≢◌, ◌≤◌, ◌⊎◌,
}
use go_book.Base.Int.{
  IsInt32, IsInt64, eq_of_parts, int_laws, max_int64, negsuc, pos, pos_part, quot, sub64, wrap64_id,
  ℤ, ◌+ℤ◌, ◌-ℤ◌, ◌<ℤ◌, ◌≤ℤ◌,
}
use go_book.Base.Result.{Result, err, ok, ok-injective, ◌>>=◌}
use go_book.Betting.Accept.{posting}
use go_book.Betting.Accepted.{HasStake, IsTyped}
use go_book.Betting.Errors.{Error, from_ledger}
use go_book.Betting.Settle.{
  Outcome, SettlementAccountRefs, applied_divisor, dead_heat_split, leg, win_outcome, won_on,
}
use go_book.Betting.Types.{Wager, result_win}
use go_book.Ledger.Money.{Currency, IsMoney, LedgerError, Money, add}
use go_book.Ledger.Odds.{profit}
use go_book.Ledger.Posting.{wager_win}
use go_book.Ledger.Profit.{profit-eq, profit-nonneg}
use go_book.Ledger.Sums.{add-eq}
use mathlib.Core.Path.{subst}
use native.Mathlib.Nat.{div-add-mod', div-le_self, mod-lt}

sub64_fits : (a b : ℤ) → pos 0 ≤ℤ a → a ≤ℤ b → b ≤ℤ max_int64 → sub64 b a ≡ b -ℤ a
sub64_fits a b h k l = wrap64_id _ (omega int_laws)

abbrev pub IsSplit : ℤ → Money × Money → Type 0
IsSplit z (win, lost) = (pos 0 ≤ℤ win.cents) × (win.cents ≤ℤ z) × (lost.cents ≡ z -ℤ win.cents)

IsSplit-cents :
    (n : ℕ) (c : Currency) (d : ℤ)
    → pos n ≤ℤ max_int64
    → IsSplit (pos n) (dead_heat_split (record { cents = pos n; currency = c }) d)
unfolding dead_heat_split quot
IsSplit-cents n c (negsuc d) h = ground (arith, sub64_fits (pos (n / 1)) (pos n), div-le_self n 1)
IsSplit-cents n c (pos d) h = ground (
  arith,
  sub64_fits (pos (n / d)) (pos n),
  sub64_fits (pos (n / 1)) (pos n),
  div-le_self n 1,
  div-le_self n d,
)

pub IsSplit-any :
    (z : ℤ) (c : Currency) (d : ℤ)
    → IsInt64 z
    → pos 0 <ℤ z
    → IsSplit z (dead_heat_split (record { cents = z; currency = c }) d)
IsSplit-any (pos n) c d h p = IsSplit-cents n c d h.1
IsSplit-any (negsuc n) c d h p = absurd (omega arith)

-- The part of the stake that rode, and that it keeps the currency.
abbrev pub riding : Wager → ℤ → Money
riding w d = (dead_heat_split w.stake d).0

-- The part of the stake that rides: the whole of it, or of a dead heat the whole cents of the fraction.
abbrev pub IsShare : ℤ → ℤ → ℤ → Type 0
IsShare stake divisor share =
    ((divisor ≤ℤ pos 1) × (share ≡ stake))
    ⊎ ((pos 1 <ℤ divisor)
        × (part : ℕ) × (share ≡ pos part)
        × (part * pos_part divisor ≤ pos_part stake)
        × (pos_part stake < part * pos_part divisor + pos_part divisor))

div_whole : (n : ℕ) → n / 1 ≡ n
div_whole n = omega (arith, div-add-mod' n 1, mod-lt n {m = 1} (omega arith))

IsShare-cents :
    (n : ℕ) (c : Currency) (d : ℤ)
    → IsShare
        (pos n)
        d
        ((dead_heat_split (record { cents = pos n; currency = c }) (applied_divisor result_win d)).0
          ).cents
unfolding dead_heat_split quot
IsShare-cents n c (negsuc d) = inl (omega arith, ground (arith, div_whole n))
IsShare-cents n c (pos zero) = inl (omega arith, ground (arith, div_whole n))
IsShare-cents n c (pos (suc zero)) = inl (omega arith, ground (arith, div_whole n))
IsShare-cents n c (pos (suc (suc d))) =
    let rest = mod-lt n {m = suc (suc d)} (omega arith) in
    let whole = div-add-mod' n (suc (suc d)) in
    inr (omega arith, n / suc (suc d), ground arith, omega (arith, whole), omega (arith, whole))

pub riding-IsShare :
    (w : Wager) (divisor : ℤ)
    → pos 0 <ℤ w.stake.cents
    → IsShare w.stake.cents divisor (riding w (applied_divisor result_win divisor)).cents
riding-IsShare w divisor h = go w.stake.cents refl h
  where
    go :
        (z : ℤ)
        → w.stake.cents ≡ z
        → pos 0 <ℤ z
        → IsShare w.stake.cents divisor (riding w (applied_divisor result_win divisor)).cents
    go (pos n) e p = rw e (IsShare-cents n w.stake.currency divisor)
    go (negsuc n) e p = absurd (omega arith)

pub split_currency : (m : Money) (d : ℤ) → (dead_heat_split m d).0.currency ≡ m.currency
unfolding dead_heat_split
split_currency m d = refl

-- The house's leg: what of the stake is not paid back, below zero if it pays.
abbrev pub house_leg : Wager → Money → Money
house_leg w back = record { cents = w.stake.cents -ℤ back.cents; currency = w.stake.currency }

pub record IsWin (w : Wager) (refs : SettlementAccountRefs) (d : ℤ) (negated : Money) (o : Outcome)
    : Type 0 where
  pub nothing_rode : (riding w d).cents ≡ pos 0 → o.profit.cents ≡ pos 0
  pub priced : (riding w d).cents ≢ pos 0 → profit w.accepted_odds (riding w d) ≡ ok o.profit
  pub profit_nonneg : pos 0 ≤ℤ o.profit.cents
  pub rides_within : ((pos 0 ≤ℤ (riding w d).cents) × ((riding w d).cents ≤ℤ w.stake.cents))
  pub back_cents : o.returned.cents ≡ (riding w d).cents +ℤ o.profit.cents
  pub back_range : IsInt64 o.returned.cents
  pub back_currency : o.returned.currency ≡ w.stake.currency
  pub legs :
      o.postings
      ≡ posting refs.escrow negated
        ∷ (leg refs.house_clearing (house_leg w o.returned) ++ leg refs.user_funding o.returned)
  pub kind : o.kind ≡ wager_win

abbrev IsWon : Wager → Money → Money → Type 0
IsWon w m won =
    (m.cents ≡ pos 0 → won.cents ≡ pos 0)
    × (m.cents ≢ pos 0 → profit w.accepted_odds m ≡ ok won)
    × (pos 0 ≤ℤ won.cents)
    × (won.cents ≤ℤ max_int64)
    × (won.currency ≡ w.stake.currency)

won_on-IsWon :
    (w : Wager) (m : Money) {won : Money}
    → IsInt32 w.accepted_odds
    → m.currency ≡ w.stake.currency
    → won_on w m ≡ ok won
    → IsWon w m won
unfolding won_on
won_on-IsWon w m {won} odds cur h = ground (
  arith,
  eq_of_parts m.cents (pos 0),
  profit-nonneg w.accepted_odds m {r = won} odds,
  profit-eq w.accepted_odds m {r = won} odds,
)

-- The house's amount as the code computes it: no step wraps around.
house_exact :
    (z win won back lost : ℤ)
    → IsInt64 z
    → (pos 0 ≤ℤ win) × (win ≤ℤ z) × (lost ≡ z -ℤ win)
    → pos 0 ≤ℤ won
    → won ≤ℤ max_int64
    → back ≡ win +ℤ won
    → IsInt64 back
    → sub64 lost won ≡ z -ℤ back
house_exact z win won back lost hz (a, b, e) p q eb hb =
    rw (e, eb) (wrap64_id (z -ℤ win -ℤ won) (omega int_laws) ∙ omega int_laws)

-- The outcome with its two amounts at hand, as the code builds it.
abbrev built : Wager → SettlementAccountRefs → ℤ → Money → Money → Money → Outcome
built w refs d negated won back =
    let house : Money = record {
      cents = sub64 (dead_heat_split w.stake d).1.cents won.cents;
      currency = w.stake.currency;
    } in
    record {
      profit = won;
      returned = back;
      postings =
          posting refs.escrow negated
          ∷ (leg refs.house_clearing house ++ leg refs.user_funding back);
      kind = wager_win;
    }

built-IsWin :
    (w : Wager) (refs : SettlementAccountRefs) (d : ℤ) (negated won back : Money)
    → HasStake w
    → IsTyped w
    → won_on w (riding w d) ≡ ok won
    → add (riding w d) won ≡ ok back
    → IsWin w refs d negated (built w refs d negated won back)
built-IsWin w refs d negated won back h t won_eq back_eq =
    let (a, b, lost) = IsSplit-any w.stake.cents w.stake.currency d t.stake_range h.positive in
    let cur = split_currency w.stake d in
    let (none_rode, priced, lo, hi, won_cur) =
      won_on-IsWon w (riding w d) t.odds_range cur won_eq in
    let ride_money : IsMoney (riding w d) = record {
      in_range = omega arith;
      valid = rw cur h.currency;
    } in
    let won_money : IsMoney won = record {
      in_range = omega arith;
      valid = rw won_cur h.currency;
    } in
    let (_, back_cur, back_cents, back_range) =
      add-eq (riding w d) won ride_money won_money back_eq in
    let house =
      house_exact w.stake.cents (riding w d).cents won.cents back.cents _ t.stake_range (a, b, lost)
        lo hi back_cents back_range in
    record {
      nothing_rode = none_rode;
      priced = priced;
      profit_nonneg = lo;
      rides_within = (a, b);
      back_cents = back_cents;
      back_range = back_range;
      back_currency = back_cur ∙ cur;
      legs = rw house;
      kind = refl;
    }

pub win_outcome-IsWin :
    (w : Wager) (refs : SettlementAccountRefs) (d : ℤ) (negated : Money) {o : Outcome}
    → HasStake w
    → IsTyped w
    → win_outcome w refs d negated ≡ ok o
    → IsWin w refs d negated o
unfolding win_outcome
win_outcome-IsWin w refs d negated {o} h t e = go (won_on w (riding w d)) refl e
  where
    finish :
        (won : Money)
        → won_on w (riding w d) ≡ ok won
        → (m : Result LedgerError Money) → add (riding w d) won ≡ m
        → (from_ledger m >>= λ back. ok (built w refs d negated won back)) ≡ ok o
        → IsWin w refs d negated o
    finish won won_eq (ok back) back_eq f =
        subst (IsWin w refs d negated) (ok-injective f)
          (built-IsWin w refs d negated won back h t won_eq back_eq)
    finish won won_eq (err x) back_eq f = cc

    go :
        (m : Result Error Money)
        → won_on w (riding w d) ≡ m
        → (m >>= λ won.
            from_ledger (add (riding w d) won) >>= λ back. ok (built w refs d negated won back))
          ≡ ok o
        → IsWin w refs d negated o
    go (ok won) won_eq f = finish won won_eq (add (riding w d) won) refl f
    go (err x) won_eq f = cc
