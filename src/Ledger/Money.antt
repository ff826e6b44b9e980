-- ===== src/Ledger/Money.antt =====
-- internal/ledger/money.go. Cents are an int64: an integer, whose sums wrap around as the machine's
-- do. Currencies are text.
use go_book.Base.{Bool, [], if◌then◌else◌, leb, not, true, ◌&&◌, ◌==◌, ◌||◌, ◌∷◌, ◌≡◌}
use go_book.Base.Int.{IsInt64, add64, eqb_ℤ, ltb_ℤ, max_int64, min_int64, neg64, pos, sub64, ℤ}
use go_book.Base.Result.{Result, err, fail_if, ok, ◌>>=◌, ◌>>◌}
use go_book.Base.Text.{Text, byte_length, codes, text_eq}

-- The package's error values; an error that wraps one of them is that one.
pub data LedgerError : Type 0 where
  invalid_currency currency_mismatch amount_overflow : LedgerError
  invalid_american_odds invalid_stake : LedgerError
  invalid_transaction unbalanced_postings : LedgerError

abbrev pub Currency : Type 0
Currency = Text

abbrev pub cad : Currency
cad = codes "CAD"

-- No code point outside A to Z: a byte of a longer code point is above 'Z'.
unfoldable pub all_upper : Text → Bool
all_upper [] = true
all_upper (c ∷ s) = (leb b'A' c && leb c b'Z') && all_upper s

unfoldable pub parse_currency : Text → Result LedgerError Currency
unfolding all_upper byte_length
parse_currency value =
    if not (byte_length value == 3)
    then err invalid_currency
    else if all_upper value
    then ok value
    else err invalid_currency

-- `Currency.Validate`
unfoldable pub validate_currency : Currency → Result LedgerError (Unit {0})
unfolding parse_currency
validate_currency c = parse_currency c >>= λ _. ok tt

pub record Money : Type 0 where
  pub cents : ℤ
  pub currency : Currency

unfoldable pub new_money : ℤ → Currency → Result LedgerError Money
new_money cents currency = do
  validate_currency currency
  ok (record { cents = cents; currency = currency })

-- The guard before a sum: would `a + b` leave the range of int64?
unfoldable pub overflows : ℤ → ℤ → Bool
overflows a b =
    (ltb_ℤ (pos 0) b && ltb_ℤ (sub64 max_int64 b) a)
    || (ltb_ℤ b (pos 0) && ltb_ℤ a (sub64 min_int64 b))

unfoldable pub add : Money → Money → Result LedgerError Money
add m other = do
  validate_currency m.currency
  validate_currency other.currency
  fail_if (not (text_eq m.currency other.currency)) currency_mismatch
  fail_if (overflows m.cents other.cents) amount_overflow
  ok (record { cents = add64 m.cents other.cents; currency = m.currency })

unfoldable pub negate : Money → Result LedgerError Money
negate m = do
  validate_currency m.currency
  fail_if (eqb_ℤ m.cents min_int64) amount_overflow
  ok (record { cents = neg64 m.cents; currency = m.currency })

-- A currency that `Validate` accepts.
abbrev pub IsCurrency : Currency → Type 0
IsCurrency c = validate_currency c ≡ ok tt

-- A value of the struct: its cents are an int64. What `Validate` accepts is `IsMoney` too.
pub record IsMoney (m : Money) : Type 0 where
  pub in_range : IsInt64 m.cents
  pub valid : IsCurrency m.currency
