-- ===== src/Betting/Legs.antt =====
-- The postings of a settlement have one shape: escrow gives up the stake, and what is paid back goes
-- to the member, the rest to the house. A leg of nothing is left out.
use go_book.Base.{
  Bool-cases, List, [], ap, arith, false, if◌then◌else◌, inl, inr, sym, ◌++◌, ◌∙◌, ◌∷◌, ◌≡◌, ◌≢◌,
  ◌⊎◌,
}
use go_book.Base.Int.{
  +ℤ_zero, IsInt64, eq_of_parts, eqb_ℤ, int_laws, neg, neg_part, neg_parts, pos, pos_part, zero-+ℤ,
  ℤ, ◌+ℤ◌, ◌-ℤ◌, ◌≤ℤ◌,
}
use go_book.Base.Text.{Text, eq_of_text_eq, text_eq, text_eq_refl, trim_space}
use go_book.Betting.Accept.{posting}
use go_book.Betting.Accepted.{HasStake, opposite}
use go_book.Betting.Settle.{SettlementAccountRefs, leg}
use go_book.Betting.Types.{Wager}
use go_book.Betting.Winning.{house_leg}
use go_book.Ledger.Balance.{IsBalanced}
use go_book.Ledger.Money.{Money}
use go_book.Ledger.Posting.{Posting}
use go_book.Ledger.Transfers.{Apart, pair-IsBalanced, triple-IsBalanced}

-- What a set of postings adds to an account.
abbrev pub credit : Text → List Posting → ℤ
credit a [] = pos 0
credit a (p ∷ ps) = (if text_eq p.account_id a then p.amount.cents else pos 0) +ℤ credit a ps

-- The three accounts of a settlement are named, and pairwise apart.
pub record Accounts (r : SettlementAccountRefs) : Type 0 where
  pub escrow_house : Apart r.escrow r.house_clearing
  pub escrow_user : Apart r.escrow r.user_funding
  pub house_user : Apart r.house_clearing r.user_funding

abbrev pub legs : Wager → SettlementAccountRefs → Money → List Posting
legs w refs back =
    posting refs.escrow (opposite w.stake)
    ∷ (leg refs.house_clearing (house_leg w back) ++ leg refs.user_funding back)

-- What a settlement does to the three accounts.
pub record Pays (w : Wager) (refs : SettlementAccountRefs) (back : ℤ) (ps : List Posting)
    : Type 0 where
  pub from_escrow : credit refs.escrow ps ≡ neg w.stake.cents
  pub to_member : credit refs.user_funding ps ≡ back
  pub to_house : credit refs.house_clearing ps ≡ w.stake.cents -ℤ back

pub Apart-ne : (a b : Text) → Apart a b → (text_eq a b ≡ false) × (text_eq b a ≡ false)
Apart-ne a b h = (ne a b h.2, ne b a (λ e. h.2 (sym e)))
  where
    ne : (s t : Text) → trim_space s ≢ trim_space t → text_eq s t ≡ false
    ne s t d = elim (Bool-cases (text_eq s t)) [
      | inl e ↦ absurd (d (ap trim_space (eq_of_text_eq s t e)))
      | inr e ↦ e
    ]

at_account : Text → Text → ℤ → ℤ
at_account a b z = if text_eq a b then z else pos 0

leg-credit :
    (a b : Text) (m : Money) (ps : List Posting)
    → credit b (leg a m ++ ps) ≡ at_account a b m.cents +ℤ credit b ps
unfolding at_account
leg-credit a b m ps = elim (Bool-cases (eqb_ℤ m.cents (pos 0))) [
  | inl e ↦
      let z : m.cents ≡ pos 0 = eq_of_parts m.cents (pos 0) (ground arith) in
      rw e (elim (Bool-cases (text_eq a b)) [
        | inl t ↦ rw (t, z, zero-+ℤ (credit b ps))
        | inr t ↦ rw (t, zero-+ℤ (credit b ps))
      ])
  | inr e ↦ rw e
]

leg-credit_last : (a b : Text) (m : Money) → credit b (leg a m) ≡ at_account a b m.cents
unfolding at_account
leg-credit_last a b m = elim (Bool-cases (eqb_ℤ m.cents (pos 0))) [
  | inl e ↦
      let z : m.cents ≡ pos 0 = eq_of_parts m.cents (pos 0) (ground arith) in
      rw e (elim (Bool-cases (text_eq a b)) [ inl t ↦ rw (t, z) | inr t ↦ rw t ])
  | inr e ↦ rw (e, +ℤ_zero (if text_eq a b then m.cents else pos 0))
]

legs-credit :
    (w : Wager) (refs : SettlementAccountRefs) (back : Money) (b : Text)
    → credit b (legs w refs back)
      ≡ at_account refs.escrow b (neg w.stake.cents)
        +ℤ (at_account refs.house_clearing b (w.stake.cents -ℤ back.cents)
            +ℤ at_account refs.user_funding b back.cents)
unfolding at_account
legs-credit w refs back b = rw (
  leg-credit refs.house_clearing b (house_leg w back) (leg refs.user_funding back),
  leg-credit_last refs.user_funding b back,
)

pub legs-Pays :
    (w : Wager) (refs : SettlementAccountRefs) (back : Money)
    → Accounts refs
    → Pays w refs back.cents (legs w refs back)
unfolding at_account
legs-Pays w refs back a =
    let eh = Apart-ne _ _ a.escrow_house in
    let eu = Apart-ne _ _ a.escrow_user in
    let hu = Apart-ne _ _ a.house_user in
    let e = text_eq_refl refs.escrow in
    let h = text_eq_refl refs.house_clearing in
    let u = text_eq_refl refs.user_funding in
    let z = w.stake.cents in
    let x = z -ℤ back.cents in
    record {
      from_escrow =
          legs-credit w refs back refs.escrow
          ∙ rw (e, eh.1, eu.1, zero-+ℤ (pos 0), +ℤ_zero (neg z));
      to_member =
          legs-credit w refs back refs.user_funding
          ∙ rw (u, eu.0, hu.0, zero-+ℤ back.cents, zero-+ℤ back.cents);
      to_house =
          legs-credit w refs back refs.house_clearing ∙ rw (h, eh.0, hu.1, +ℤ_zero x, zero-+ℤ x);
    }

ℤ-cases : (z : ℤ) → (z ≡ pos 0) ⊎ (z ≢ pos 0)
ℤ-cases z = elim (Bool-cases (eqb_ℤ z (pos 0))) [
  | inl e ↦ inl (eq_of_parts z (pos 0) (ground arith))
  | inr e ↦ inr (λ f. ground arith)
]

-- An amount paid back, in the currency of the stake.
abbrev pub paid : Wager → ℤ → Money
paid w back = record { cents = back; currency = w.stake.currency }

module _ (w : Wager) (refs : SettlementAccountRefs) (back : ℤ) (h : HasStake w)
    (r : IsInt64 w.stake.cents) (a : Accounts refs) (lo : pos 0 ≤ℤ back) (hi : IsInt64 back) where
  neg_range : IsInt64 (neg w.stake.cents)
  neg_range = let p = h.positive in omega (arith, r, neg_parts w.stake.cents)

  neg_nonzero : neg w.stake.cents ≢ pos 0
  neg_nonzero e =
      let p = h.positive in omega (arith, neg_parts w.stake.cents, ap pos_part e, ap neg_part e)

  all_back : w.stake.cents -ℤ back ≡ pos 0 → IsBalanced w.stake.currency (legs w refs (paid w back))
  all_back e =
      let p = h.positive in
      let n : back ≢ pos 0 =
        λ f. omega (int_laws, ap pos_part e, ap neg_part e, ap pos_part f, ap neg_part f) in
      let f : eqb_ℤ back (pos 0) ≡ false = ground arith in
      rw (e, f)
        (pair-IsBalanced w.stake.currency refs.escrow refs.user_funding (neg w.stake.cents) back
          h.currency a.escrow_user neg_range neg_nonzero n
          (omega (int_laws, neg_parts w.stake.cents, ap pos_part e, ap neg_part e)))

  none_back :
      w.stake.cents -ℤ back ≢ pos 0
      → back ≡ pos 0
      → IsBalanced w.stake.currency (legs w refs (paid w back))
  none_back n e =
      let f : eqb_ℤ (w.stake.cents -ℤ back) (pos 0) ≡ false =
        ground (arith, eq_of_parts (w.stake.cents -ℤ back) (pos 0)) in
      rw (f, e)
        (pair-IsBalanced w.stake.currency refs.escrow refs.house_clearing (neg w.stake.cents)
          (w.stake.cents -ℤ pos 0) h.currency a.escrow_house neg_range neg_nonzero (rw e at n)
          (omega (int_laws, neg_parts w.stake.cents)))

  some_back :
      w.stake.cents -ℤ back ≢ pos 0
      → back ≢ pos 0
      → IsBalanced w.stake.currency (legs w refs (paid w back))
  some_back n m =
      let p = h.positive in
      let f : eqb_ℤ (w.stake.cents -ℤ back) (pos 0) ≡ false =
        ground (arith, eq_of_parts (w.stake.cents -ℤ back) (pos 0)) in
      let g : eqb_ℤ back (pos 0) ≡ false = ground (arith, eq_of_parts back (pos 0)) in
      rw (f, g)
        (triple-IsBalanced w.stake.currency refs.escrow refs.house_clearing refs.user_funding
          (neg w.stake.cents) (w.stake.cents -ℤ back) back h.currency a.escrow_house a.escrow_user
          a.house_user neg_range (omega (int_laws, r, hi, neg_parts w.stake.cents)) neg_nonzero n m
          (omega (int_laws, neg_parts w.stake.cents)))

  -- Whatever part of the stake or more is paid back, the legs balance.
  pub legs-IsBalanced : IsBalanced w.stake.currency (legs w refs (paid w back))
  legs-IsBalanced = elim (ℤ-cases (w.stake.cents -ℤ back)) [
    | inl e ↦ all_back e
    | inr n ↦ elim (ℤ-cases back) [ inl e ↦ none_back n e | inr m ↦ some_back n m ]
  ]
