-- ===== src/Base/Blank.antt =====
-- Texts that are not blank: those that begin with a character that is no space.
use go_book.Base.{Bool-cases, [], false, inl, inr, refl, reverse, true, ℕ, ◌++◌, ◌∷◌, ◌≡◌, ◌⊎◌}
use go_book.Base.Text.{Text, is_blank, is_empty, is_space, trim_left, trim_space}
use mathlib.Core.List.{reverse-append}

trim_left-snoc :
    (c : ℕ) (xs : Text)
    → is_space c ≡ false
    → (ys : Text) × (trim_left (xs ++ c ∷ []) ≡ ys ++ c ∷ [])
unfolding trim_left
trim_left-snoc c [] h = ([], rw h)
trim_left-snoc c (x ∷ xs) h = elim (Bool-cases (is_space x)) [
  | inl e ↦ let (ys, eq) = trim_left-snoc c xs h in (ys, rw e eq)
  | inr e ↦ (x ∷ xs, rw e)
]

reverse-cons : (c : ℕ) (s : Text) → reverse (c ∷ s) ≡ reverse s ++ c ∷ []
reverse-cons c s = reverse-append (c ∷ []) s

reverse-snoc : (c : ℕ) (ys : Text) → reverse (ys ++ c ∷ []) ≡ c ∷ reverse ys
reverse-snoc c ys = reverse-append ys (c ∷ [])

-- A text that begins with no space is not blank.
pub is_blank-cons : (c : ℕ) (s : Text) → is_space c ≡ false → is_blank (c ∷ s) ≡ false
unfolding is_blank
is_blank-cons c s h =
    let (ys, e) = trim_left-snoc c (reverse s) h in
    rw h (rw (reverse-cons c s, e, reverse-snoc c ys))

trim_left-cases :
    (s : Text)
    → (trim_left s ≡ []) ⊎ ((c : ℕ) × (r : Text) × (trim_left s ≡ c ∷ r) × (is_space c ≡ false))
unfolding trim_left
trim_left-cases [] = inl refl
trim_left-cases (c ∷ s) = elim (Bool-cases (is_space c)) [
  | inl e ↦ rw e (trim_left-cases s)
  | inr e ↦ inr (c, s, rw e, e)
]

trimmed_away : (s : Text) → trim_left s ≡ [] → is_empty (trim_space s) ≡ true
unfolding trim_space trim_left
trimmed_away s e = rw e refl

-- What is not empty once trimmed is not blank either.
pub trim_space-nonblank :
    (s : Text) → is_empty (trim_space s) ≡ false → is_blank (trim_space s) ≡ false
unfolding trim_space
trim_space-nonblank s h = elim (trim_left-cases s) [
  | inl e ↦ cc (trimmed_away s e)
  | inr (c, r, e, n) ↦
      let (ys, f) = trim_left-snoc c (reverse r) n in
      rw (e, reverse-cons c r, f, reverse-snoc c ys) (is_blank-cons c (reverse ys) n)
]
