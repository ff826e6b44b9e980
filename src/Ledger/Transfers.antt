-- ===== src/Ledger/Transfers.antt =====
-- Sets of two and three postings that the commands of the book build are always accepted.
use go_book.Base.{[], arith, false, refl, true, ◌↔◌, ◌∷◌, ◌≡◌, ◌≢◌}
use go_book.Base.Int.{+ℤ_assoc, +ℤ_zero, IsInt64, pos, zero-+ℤ, ℤ, ◌+ℤ◌}
use go_book.Base.Result.{ok}
use go_book.Base.Text.{Text, is_blank, trim_space}
use go_book.Ledger.Balance.{InRange, IsBalanced, account, validate_postings_iff}
use go_book.Ledger.Money.{Currency, IsCurrency}
use go_book.Ledger.Posting.{
  Posting, Transaction, is_reversal, needs_reason, validate_transaction, validate_type,
}
use go_book.Ledger.Profit.{currency-cases}

-- Two accounts that a set of postings may name together.
abbrev pub Apart : Text → Text → Type 0
Apart a b = (is_blank a ≡ false) × (is_blank b ≡ false) × (trim_space a ≢ trim_space b)

abbrev pub posted : Text → ℤ → Currency → Posting
posted account cents c = record {
  account_id = account;
  amount = record { cents = cents; currency = c };
}

-- Opposite amounts on two accounts balance.
pub pair-IsBalanced :
    (c : Currency) (a b : Text) (x y : ℤ)
    → IsCurrency c
    → Apart a b
    → IsInt64 x
    → x ≢ pos 0
    → y ≢ pos 0
    → x +ℤ y ≡ pos 0
    → IsBalanced c (posted a x c ∷ posted b y c ∷ [])
unfolding is_blank
pair-IsBalanced c a b x y hc apart hx nx ny e = record {
  currency_valid = hc;
  at_least_two = omega arith;
  each = (
    record { has_account = apart.0; valid = hc; same_currency = refl; nonzero = nx },
    (record { has_account = apart.1; valid = hc; same_currency = refl; nonzero = ny }, tt),
  );
  distinct = ((apart.2, tt), (tt, tt));
  fits = (rw (zero-+ℤ x) hx, (rw (zero-+ℤ x, e) (omega arith), tt));
  zero_sum = rw (+ℤ_zero y) e;
}

-- Three amounts that add up to nothing balance on three accounts, if the first two stay in range.
pub triple-IsBalanced :
    (c : Currency) (a b d : Text) (x y z : ℤ)
    → IsCurrency c
    → Apart a b
    → Apart a d
    → Apart b d
    → IsInt64 x
    → IsInt64 (x +ℤ y)
    → x ≢ pos 0
    → y ≢ pos 0
    → z ≢ pos 0
    → x +ℤ y +ℤ z ≡ pos 0
    → IsBalanced c (posted a x c ∷ posted b y c ∷ posted d z c ∷ [])
unfolding is_blank
triple-IsBalanced c a b d x y z hc ab ad bd hx hxy nx ny nz e = record {
  currency_valid = hc;
  at_least_two = omega arith;
  each = (
    record { has_account = ab.0; valid = hc; same_currency = refl; nonzero = nx },
    (
      record { has_account = ab.1; valid = hc; same_currency = refl; nonzero = ny },
      (record { has_account = bd.1; valid = hc; same_currency = refl; nonzero = nz }, tt),
    ),
  );
  distinct = ((ab.2, (ad.2, tt)), ((bd.2, tt), (tt, tt)));
  fits = (rw (zero-+ℤ x) hx, (rw (zero-+ℤ x) hxy, (rw (zero-+ℤ x, e) (omega arith), tt)));
  zero_sum = rw (+ℤ_zero z, ← +ℤ_assoc x y z) e;
}

-- The header of a transaction passes `Validate`.
pub record HasHeader (t : Transaction) : Type 0 where
  pub known : validate_type t.kind ≡ ok tt
  pub keyed : is_blank t.idempotency_key ≡ false
  pub by_actor : is_blank t.actor ≡ false
  pub source_typed : is_blank t.source_type ≡ false
  pub sourced : is_blank t.source_id ≡ false
  pub reverses : is_reversal t.kind ≡ true → is_blank t.reversal_of ≡ false
  pub explained : needs_reason t.kind ≡ true → is_blank t.reason ≡ false

-- A transaction of int64 amounts is valid exactly when its header is and its postings balance.
pub validate_transaction_iff :
    (t : Transaction)
    → InRange t.postings
    → (validate_transaction t ≡ ok tt) ↔ (HasHeader t × IsBalanced t.currency t.postings)
unfolding validate_transaction
validate_transaction_iff t h = (
  λ e. ground (arith, currency-cases t.currency, validate_postings_iff t.currency t.postings h),
  λ p.
      let hd = p.0 in
      let v = p.1.currency_valid in
      rw (hd.known, v, hd.keyed, hd.by_actor, hd.source_typed, hd.sourced)
        (ground (
          arith,
          hd.reverses,
          hd.explained,
          (validate_postings_iff t.currency t.postings h).1 p.1,
        )),
)
