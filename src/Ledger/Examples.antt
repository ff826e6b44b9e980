-- ===== src/Ledger/Examples.antt =====
-- Runs of the ledger, and its theorems at concrete amounts.
use go_book.Base.{List, [], arith, refl, ◌↔◌, ◌∷◌, ◌≡◌}
use go_book.Base.Int.{negsuc, pos, quot, rem, wrap64, ◌*ℤ◌, ◌+ℤ◌, ◌-ℤ◌}
use go_book.Base.Result.{ok}
use go_book.Base.Text.{codes, is_space, trim_space}
use go_book.Ledger.Balance.{IsBalanced, validate_postings_iff}
use go_book.Ledger.Money.{IsMoney, Money, cad, overflows, validate_currency}
use go_book.Ledger.Odds.{profit, rounded, validate_odds}
use go_book.Ledger.Posting.{
  Posting, Transaction, check_posting, check_postings, contains, validate_postings, wager_refund,
}
use go_book.Ledger.Profit.{IsProfit, profit-IsProfit}
use go_book.Ledger.Transfers.{posted}

abbrev ten : Money
ten = record { cents = pos 1000; currency = cad }

abbrev ten_back : Money
ten_back = record { cents = negsuc 999; currency = cad }

ten-IsMoney : IsMoney ten
unfolding validate_currency
ten-IsMoney = record { in_range = omega arith; valid = refl }

ten_back-IsMoney : IsMoney ten_back
unfolding validate_currency
ten_back-IsMoney = record { in_range = omega arith; valid = refl }

-- Ten dollars at +150 win fifteen, at -300 three dollars and 33 cents.
profit-positive : profit (pos 150) ten ≡ ok (record { cents = pos 1500; currency = cad })
unfolding profit validate_odds validate_currency rounded quot rem ◌*ℤ◌ wrap64 ◌+ℤ◌ ◌-ℤ◌
profit-positive = refl

profit-negative : profit (negsuc 299) ten ≡ ok (record { cents = pos 333; currency = cad })
unfolding profit validate_odds validate_currency rounded quot rem ◌*ℤ◌ wrap64 ◌+ℤ◌ ◌-ℤ◌
profit-negative = refl

profit-IsProfit_example : IsProfit (negsuc 299) ten (profit (negsuc 299) ten)
profit-IsProfit_example = profit-IsProfit (negsuc 299) ten (omega arith)

abbrev two_legs : List Posting
two_legs = posted (codes "escrow") (negsuc 999) cad ∷ posted (codes "member") (pos 1000) cad ∷ []

validate_postings-two_legs : validate_postings cad two_legs ≡ ok tt
unfolding validate_postings check_postings check_posting contains validate_currency trim_space
    is_space wrap64 ◌+ℤ◌ ◌-ℤ◌ overflows
validate_postings-two_legs = refl

validate_postings_iff_example : (validate_postings cad two_legs ≡ ok tt) ↔ IsBalanced cad two_legs
validate_postings_iff_example = validate_postings_iff cad two_legs (omega arith)

abbrev refund : Transaction
refund = record {
  kind = wager_refund;
  currency = cad;
  idempotency_key = codes "wager:1:void";
  actor = codes "admin";
  source_type = codes "wager";
  source_id = codes "1";
  reason = [];
  reversal_of = [];
  postings = two_legs;
}
