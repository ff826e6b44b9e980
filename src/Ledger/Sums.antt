-- ===== src/Ledger/Sums.antt =====
-- Sums and negations of money.go: exact where they succeed, refused exactly where they would leave
-- the range.
use go_book.Base.{ap, arith, false, inl, inr, ◌↔◌, ◌∙◌, ◌≡◌, ◌≢◌}
use go_book.Base.Int.{
  IsInt64, eq_of_parts, int_laws, max_int64, min_int64, neg, negsuc, pos, sub64, wrap64_id, ℤ, ◌+ℤ◌,
  ◌-ℤ◌, ◌<ℤ◌, ◌≤ℤ◌,
}
use go_book.Base.Result.{Result, Result-cases, err, ok}
use go_book.Base.Text.{text_eq_iff}
use go_book.Ledger.Money.{
  IsMoney, LedgerError, Money, add, amount_overflow, currency_mismatch, negate, overflows,
}
use mathlib.Core.Path.{subst}

-- The guard never wraps around where it is read.
sub64_max : (b : ℤ) → IsInt64 b → pos 0 ≤ℤ b → sub64 max_int64 b ≡ max_int64 -ℤ b
sub64_max b h p = wrap64_id _ (omega int_laws)

sub64_min : (b : ℤ) → IsInt64 b → b ≤ℤ pos 0 → sub64 min_int64 b ≡ min_int64 -ℤ b
sub64_min b h p = wrap64_id _ (omega int_laws)

pub overflows_iff : (a b : ℤ) → IsInt64 a → IsInt64 b → (overflows a b ≡ false) ↔ IsInt64 (a +ℤ b)
unfolding overflows ◌+ℤ◌ ◌-ℤ◌
overflows_iff (pos a) (pos b) ha hb = ground (arith, sub64_max (pos b) hb)
overflows_iff (pos a) (negsuc b) ha hb = ground (arith, sub64_min (negsuc b) hb)
overflows_iff (negsuc a) (pos b) ha hb = ground (arith, sub64_max (pos b) hb)
overflows_iff (negsuc a) (negsuc b) ha hb = ground (arith, sub64_min (negsuc b) hb)

-- What a sum must be, by how it ended.
abbrev pub IsSum : Money → Money → Result LedgerError Money → Type 0
IsSum m n (ok r) =
    (m.currency ≡ n.currency)
    × (r.currency ≡ m.currency)
    × (r.cents ≡ m.cents +ℤ n.cents)
    × IsInt64 r.cents
IsSum m n (err currency_mismatch) = m.currency ≢ n.currency
IsSum m n (err amount_overflow) = ¬ IsInt64 (m.cents +ℤ n.cents)
IsSum m n (err _) = ⊥

add-IsSum : (m n : Money) → IsMoney m → IsMoney n → IsSum m n (add m n)
unfolding add
add-IsSum m n hm hn =
    rw (hm.valid, hn.valid)
      (ground (
        arith,
        text_eq_iff m.currency n.currency,
        overflows_iff m.cents n.cents hm.in_range hn.in_range,
        wrap64_id (m.cents +ℤ n.cents),
      ))

-- What the opposite amount must be, by how it ended.
abbrev pub IsOpposite : Money → Result LedgerError Money → Type 0
IsOpposite m (ok r) = (r.currency ≡ m.currency) × (r.cents ≡ neg m.cents) × IsInt64 r.cents
IsOpposite m (err amount_overflow) = m.cents ≡ min_int64
IsOpposite m (err _) = ⊥

neg-IsInt64 : (a : ℤ) → IsInt64 a → a ≢ min_int64 → IsInt64 (neg a)
neg-IsInt64 (pos n) h ne = ground arith
neg-IsInt64 (negsuc n) h ne = ground arith

-- Negation is exact, and refused for the least int64 alone.
negate-IsOpposite : (m : Money) → IsMoney m → IsOpposite m (negate m)
unfolding negate
negate-IsOpposite m h = rw h.valid (
    ground (
      arith,
      eq_of_parts m.cents min_int64,
      neg-IsInt64 m.cents h.in_range,
      wrap64_id (neg m.cents),
    ))

pub negate-eq :
    (m : Money) {r : Money}
    → IsMoney m
    → negate m ≡ ok r
    → (r.currency ≡ m.currency) × (r.cents ≡ neg m.cents) × IsInt64 r.cents
negate-eq m h e = subst (IsOpposite m) e (negate-IsOpposite m h)

pub add-eq : (m n : Money) {r : Money} → IsMoney m → IsMoney n → add m n ≡ ok r → IsSum m n (ok r)
add-eq m n hm hn e = subst (IsSum m n) e (add-IsSum m n hm hn)

-- For a positive amount the opposite is at hand.
pub negate_pos :
    (m : Money) → IsMoney m → pos 0 <ℤ m.cents → negate m ≡ ok (record m { cents = neg m.cents })
unfolding negate
negate_pos m h p =
    rw h.valid (ground (arith, neg-IsInt64 m.cents h.in_range, wrap64_id (neg m.cents)))

refusal :
    (m n : Money)
    → m.currency ≡ n.currency
    → IsInt64 (m.cents +ℤ n.cents)
    → (x : LedgerError) → ¬ IsSum m n (err x)
refusal m n same range x h = ground arith

-- A sum that fits is made.
pub add_exact :
    (m n : Money)
    → IsMoney m
    → IsMoney n
    → m.currency ≡ n.currency
    → IsInt64 (m.cents +ℤ n.cents)
    → add m n ≡ ok (record { cents = m.cents +ℤ n.cents; currency = m.currency })
add_exact m n hm hn same range = elim (Result-cases (add m n)) [
  | inl (r, e) ↦ let (_, currency, cents, _) = add-eq m n hm hn e in e ∙ ap ok (ground arith)
  | inr (x, e) ↦ absurd (refusal m n same range x (subst (IsSum m n) e (add-IsSum m n hm hn)))
]
