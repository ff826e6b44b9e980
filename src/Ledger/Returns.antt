-- ===== src/Ledger/Returns.antt =====
-- How much a price from +100 to +10000 wins.
use go_book.Base.{arith, sym, ℕ, ◌*◌, ◌≡◌, ◌≤◌}
use go_book.Base.Int.{int_laws, neg_part, negsuc, pos, pos_part, ℤ, ◌*ℤ◌, ◌+ℤ◌, ◌<ℤ◌, ◌≤ℤ◌}
use go_book.Base.Result.{ok}
use go_book.Ledger.Money.{IsCurrency, Money, add}
use go_book.Ledger.Odds.{AmericanOdds, profit}
use go_book.Ledger.Profit.{profit-eq, profit-stake_bound}
use go_book.Ledger.Sums.{add_exact}
use native.Mathlib.Nat.{mul-le-mul_left}

at_hundred : (s k : ℕ) → 100 ≤ k → k ≤ 10_000 → (s * 100 ≤ s * k) × (s * k ≤ s * 10_000)
at_hundred s k lo hi = (mul-le-mul_left s lo, mul-le-mul_left s hi)

hundredfold :
    (a : ℤ)
    → pos 0 <ℤ a
    → (pos_part (a *ℤ pos 100) ≡ pos_part a * 100) × (neg_part (a *ℤ pos 100) ≡ 0)
unfolding ◌*ℤ◌
hundredfold (pos n) p = ground arith
hundredfold (negsuc n) p = absurd (omega arith)

-- The profit at a price from +100 to +10000 is from the stake itself to a hundred times the stake.
pub profit-within :
    (o : AmericanOdds) (stake : Money) {r : Money}
    → pos 100 ≤ℤ o
    → o ≤ℤ pos 10_000
    → pos 0 <ℤ stake.cents
    → profit o stake ≡ ok r
    → (stake.cents ≤ℤ r.cents) × (r.cents ≤ℤ stake.cents *ℤ pos 100)
profit-within (negsuc k) stake lo hi p e = absurd (omega arith)
profit-within (pos k) stake {r} lo hi p e =
    let (_, amount, _) = profit-eq (pos k) stake (omega arith) e in
    let (least, most) = at_hundred (pos_part stake.cents) k (omega arith) (omega arith) in
    rw amount (omega (arith, hundredfold stake.cents p))

-- At a price above even money the stake and the profit on it add up without overflow.
pub returned-fits :
    (o : AmericanOdds) (stake : Money) {r : Money}
    → pos 100 ≤ℤ o
    → o ≤ℤ pos 10_000
    → pos 0 <ℤ stake.cents
    → IsCurrency stake.currency
    → profit o stake ≡ ok r
    → add stake r ≡ ok (record { cents = stake.cents +ℤ r.cents; currency = stake.currency })
returned-fits (negsuc k) stake lo hi p valid e = absurd (omega arith)
returned-fits (pos k) stake {r} lo hi p valid e =
    let (same, amount, fits) = profit-eq (pos k) stake (omega arith) e in
    let bound = profit-stake_bound (pos k) stake (omega arith) e in
    add_exact stake r (record { in_range = omega arith; valid = valid })
      (record { in_range = rw amount (omega arith); valid = rw same valid }) (sym same)
      (rw amount (omega int_laws))
