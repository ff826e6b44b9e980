-- ===== src/Events/Delay.antt =====
-- When a failed event is tried again.
-- `rand.Int63n(n)` is from 0 to n - 1, for a positive n.
use go_book.Base.{
  Bool-cases, arith, if◌then◌else◌, inl, inr, ltb, suc, zero, ℕ, ◌+◌, ◌^◌, ◌≡◌, ◌≤◌, ◌⊎◌,
}
use go_book.Base.Int.{
  add64, int_laws, leb_ℤ, ltb_ℤ, max_int64, negsuc, pos, pos_part, quot, wrap64_id, ℤ, ◌*ℤ◌, ◌+ℤ◌,
  ◌<ℤ◌, ◌≤ℤ◌,
}
use go_book.Events.Backoff.{
  AfterFailure, after_failure, backoff_delay, capped_delay, mark_failed, mark_retry, shift_of,
}
use go_book.Events.Envelope.{Time}
use native.Mathlib.Nat.{le-mul_of_pos_right, pow-suc, pow-zero}

abbrev pub IsRandom : (ℤ → ℤ) → Type 0
IsRandom random = (n : ℤ) → pos 0 <ℤ n → (pos 0 ≤ℤ random n) × (random n <ℤ n)

-- Not at all up to the first attempt, once more at each, and 62 times from the 63rd.
abbrev pub IsDoubled : ℤ → ℕ → Type 0
IsDoubled attempt k =
    ((attempt ≤ℤ pos 1) × (k ≡ 0))
    ⊎ ((attempt ≡ pos (suc k)) × (k ≤ 62))
    ⊎ ((pos 63 ≤ℤ attempt) × (k ≡ 62))

shift_of-IsDoubled : (attempt : ℤ) → IsDoubled attempt (shift_of attempt)
shift_of-IsDoubled (negsuc n) = inl (omega arith, ground arith)
shift_of-IsDoubled (pos zero) = inl (omega arith, ground arith)
shift_of-IsDoubled (pos (suc k)) = elim (Bool-cases (ltb 62 k)) [
  | inl late ↦ inr (inr (ground arith, ground arith))
  | inr early ↦ inr (inl (ground arith, ground arith))
]

pub record IsDelay (base cap attempt delay result : ℤ) : Type 0 where
  pub positive : pos 0 <ℤ delay
  pub within_cap : delay ≤ℤ cap
  pub at_least_half : quot delay (pos 2) ≤ℤ result
  pub at_most : result ≤ℤ delay
  pub doublings : ℕ
  pub by_attempt : IsDoubled attempt doublings
  pub doubles :
      (max_int64 <ℤ base *ℤ pos (2 ^ doublings))
      ⊎ ((cap ≤ℤ base *ℤ pos (2 ^ doublings)) × (delay ≡ cap))
      ⊎ ((base *ℤ pos (2 ^ doublings) ≤ℤ cap) × (delay ≡ base *ℤ pos (2 ^ doublings)))

pow_pos : (k : ℕ) → 1 ≤ 2 ^ k
pow_pos zero = omega (arith, pow-zero 2)
pow_pos (suc k) = omega (arith, pow-suc 2 k, pow_pos k)

product_pos : (base : ℤ) (n : ℕ) → pos 0 <ℤ base → 1 ≤ n → pos 0 <ℤ base *ℤ pos n
unfolding ◌*ℤ◌
product_pos (pos b) n p h = let m = le-mul_of_pos_right {m = n} b h in ground arith
product_pos (negsuc b) n p h = ground arith

module _ (base cap attempt : ℤ) (lo : pos 0 <ℤ base) (hi : base ≤ℤ cap)
    (range : cap ≤ℤ max_int64) where
  capped_bounds : (pos 0 <ℤ capped_delay base cap attempt) × (capped_delay base cap attempt ≤ℤ cap)
  unfolding capped_delay
  capped_bounds = ground arith

  capped_doubles :
      let full = base *ℤ pos (2 ^ shift_of attempt) in
      (max_int64 <ℤ full)
      ⊎ ((cap ≤ℤ full) × (capped_delay base cap attempt ≡ cap))
      ⊎ ((full ≤ℤ cap) × (capped_delay base cap attempt ≡ full))
  unfolding capped_delay
  capped_doubles =
      let full = base *ℤ pos (2 ^ shift_of attempt) in
      let p = product_pos base (2 ^ shift_of attempt) lo (pow_pos (shift_of attempt)) in
      elim (Bool-cases (leb_ℤ full max_int64)) [
        | inr wraps ↦ inl (ground arith)
        | inl fits ↦
            let exact = wrap64_id full (omega arith, ground arith) in
            elim (Bool-cases (ltb_ℤ cap full)) [
              | inl above ↦ inr (inl (ground arith, rw exact (ground arith)))
              | inr below ↦ inr (inr (ground arith, rw exact (ground arith)))
            ]
      ]

half_bounds :
    (d : ℤ)
    → pos 0 <ℤ d
    → d ≤ℤ max_int64
    → (pos 0 ≤ℤ quot d (pos 2)) × (quot d (pos 2) +ℤ quot d (pos 2) ≤ℤ d)
unfolding quot ◌+ℤ◌
half_bounds (pos n) p h = ground arith
half_bounds (negsuc n) p h = ground arith

add_jitter :
    (half j d : ℤ)
    → pos 0 ≤ℤ half
    → pos 0 ≤ℤ j
    → j ≤ℤ half
    → half +ℤ half ≤ℤ d
    → d ≤ℤ max_int64
    → (half ≤ℤ add64 half j) × (add64 half j ≤ℤ d)
add_jitter half j d a b c e h =
    rw (wrap64_id (half +ℤ j) (omega int_laws)) (omega int_laws, omega int_laws)

one_more :
    (half d : ℤ)
    → pos 0 ≤ℤ half
    → half +ℤ half ≤ℤ d
    → d ≤ℤ max_int64
    → pos 0 <ℤ d
    → (add64 half (pos 1) ≡ half +ℤ pos 1) × (pos 0 <ℤ half +ℤ pos 1)
one_more half d a b c p = (wrap64_id (half +ℤ pos 1) (omega int_laws), omega int_laws)

jittered :
    (random : ℤ → ℤ) (d : ℤ)
    → IsRandom random
    → pos 0 <ℤ d
    → d ≤ℤ max_int64
    → let half = quot d (pos 2) in
      let result = add64 half (if ltb_ℤ (pos 0) half then random (add64 half (pos 1)) else pos 0) in
      (half ≤ℤ result) × (result ≤ℤ d)
jittered random d r p h =
    let (nonneg, twice) = half_bounds d p h in
    let half = quot d (pos 2) in
    elim (Bool-cases (ltb_ℤ (pos 0) half)) [
      | inl e ↦
          let (exact, more) = one_more half d nonneg twice h p in
          let (low, high) = r (half +ℤ pos 1) more in
          rw (e, exact)
            (add_jitter half (random (half +ℤ pos 1)) d nonneg low (omega int_laws) twice h)
      | inr e ↦ rw e (add_jitter half (pos 0) d nonneg (omega arith) nonneg twice h)
    ]

-- The delay before a retry lies between half of the capped delay and all of it; the capped delay is
-- positive and never above the cap; and where it fits in an int64, it is the smaller of the cap and of
-- the base doubled once at each attempt after the first, at most 62 times: for a positive base up to the
-- cap, and a `rand.Int63n` that stays below its argument.
pub backoff_delay-IsDelay :
    (random : ℤ → ℤ) (base cap attempt : ℤ)
    → IsRandom random
    → pos 0 <ℤ base
    → base ≤ℤ cap
    → cap ≤ℤ max_int64
    → IsDelay base cap attempt
        (capped_delay base cap attempt)
        (backoff_delay random base cap attempt)
unfolding backoff_delay
backoff_delay-IsDelay random base cap attempt r lo hi range =
    let (positive, within) = capped_bounds base cap attempt lo hi range in
    let (above, below) =
      jittered random (capped_delay base cap attempt) r positive (omega (arith, within)) in
    record {
      positive = positive;
      within_cap = within;
      at_least_half = above;
      at_most = below;
      doublings = shift_of attempt;
      by_attempt = shift_of-IsDoubled attempt;
      doubles = capped_doubles base cap attempt lo hi range;
    }

pos_part_le : (a b : ℤ) → a ≤ℤ b → pos_part a ≤ pos_part b
pos_part_le (pos a) b h = omega (arith, h)
pos_part_le (negsuc a) b h = omega arith

-- What is done with an event that has failed, by its attempts.
abbrev pub IsAfterFailure : ℤ → ℤ → ℤ → Time → AfterFailure → Type 0
IsAfterFailure cap attempts max_attempts now mark_failed = max_attempts ≤ℤ attempts
IsAfterFailure cap attempts max_attempts now (mark_retry at) =
    (attempts <ℤ max_attempts) × (now ≤ at) × (at ≤ now + pos_part cap)

-- An event that has failed is given up exactly when its attempts are used up; until then it is tried
-- again, not before now and not later than the cap from now, under the conditions on the durations and
-- on `rand.Int63n` of the delay.
after_failure-IsAfterFailure :
    (random : ℤ → ℤ) (base cap attempts max_attempts : ℤ) (now : Time)
    → IsRandom random
    → pos 0 <ℤ base
    → base ≤ℤ cap
    → cap ≤ℤ max_int64
    → IsAfterFailure cap attempts max_attempts now
        (after_failure random base cap attempts max_attempts now)
unfolding after_failure
after_failure-IsAfterFailure random base cap attempts max_attempts now r lo hi range =
    let d = backoff_delay-IsDelay random base cap attempts r lo hi range in
    let most = d.at_most in
    let within = d.within_cap in
    elim (Bool-cases (leb_ℤ max_attempts attempts)) [
      | inl e ↦ rw e (ground arith)
      | inr e ↦ rw e (
        ground arith,
        omega arith,
        omega (
          arith,
          pos_part_le (backoff_delay random base cap attempts) cap (omega (arith, most, within)),
        ),
      )
    ]
