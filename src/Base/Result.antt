-- ===== src/Base/Result.antt =====
-- A call that returns `(value, error)`: the value, or one of the package's errors.
use go_book.Base.{Bool, false, inl, inr, refl, true, ◌≡◌, ◌⊎◌}

pub data Result {ℓ} (E : Type 0) (A : Type ℓ) : Type ℓ where
  err : E → Result E A
  ok : A → Result E A

infixl 5 ◌>>=◌ ◌>>◌
abbrev pub ◌>>=◌ {ℓ κ} :
    {E : Type 0} {A : Type ℓ} {B : Type κ} → Result E A → (A → Result E B) → Result E B
err refused >>= next = err refused
ok value >>= next = next value

abbrev pub ◌>>◌ {ℓ} : {E : Type 0} {B : Type ℓ} → Result E (Unit {0}) → Result E B → Result E B
m >> k = m >>= λ _. k

-- `if refused { return err }`
abbrev pub fail_if : {E : Type 0} → Bool → E → Result E (Unit {0})
fail_if true e = err e
fail_if false e = ok tt

-- `if !test { return err }`
abbrev pub require : {E : Type 0} → Bool → E → Result E (Unit {0})
require true e = ok tt
require false e = err e

module _ {ℓ κ} {E : Type 0} {A : Type ℓ} {B : Type κ} where
  -- A chain that succeeds has succeeded in its first step, and in the rest.
  pub >>=-eq-ok :
      (first : Result E A) (next : A → Result E B) {out : B}
      → (first >>= next) ≡ ok out
      → (value : A) × (first ≡ ok value) × (next value ≡ ok out)
  >>=-eq-ok (err refused) next done = cc
  >>=-eq-ok (ok value) next done = (value, refl, done)

module _ {ℓ} {E : Type 0} {B : Type ℓ} where
  pub require-eq-ok :
      (t : Bool) (e : E) (k : Result E B) {b : B}
      → (require t e >> k) ≡ ok b
      → (t ≡ true) × (k ≡ ok b)
  require-eq-ok true e k h = (refl, h)
  require-eq-ok false e k h = cc

  pub fail_if-eq-ok :
      (t : Bool) (e : E) (k : Result E B) {b : B}
      → (fail_if t e >> k) ≡ ok b
      → (t ≡ false) × (k ≡ ok b)
  fail_if-eq-ok true e k h = cc
  fail_if-eq-ok false e k h = (refl, h)

pub ok-injective {ℓ} :
    {E : Type 0} {A : Type ℓ} {a b : A} → ◌≡◌ {A = Result E A} (ok a) (ok b) → a ≡ b
ok-injective e = cc

module _ {ℓ} {E : Type 0} {A : Type ℓ} where
  pub Result-cases : (m : Result E A) → ((a : A) × (m ≡ ok a)) ⊎ ((e : E) × (m ≡ err e))
  Result-cases (ok a) = inl (a, refl)
  Result-cases (err e) = inr (e, refl)
