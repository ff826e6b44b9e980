-- ===== src/Betting/Ordered.antt =====
-- internal/betting/settle.go, the order in which `splitAcceptedWagers` hands on the accepted wagers.
use go_book.Base.{All, Bool-cases, List, [], arith, false, inl, inr, refl, true, ◌∷◌, ◌≡◌}
use go_book.Base.Text.{Text, text_lt}
use go_book.Betting.Partition.{insert_by_id, sort_by_id}
use go_book.Betting.Types.{Wager}
use mathlib.Core.List.{Perm}
use mathlib.Core.List.Perm

text_lt-asym : (s t : Text) → text_lt s t ≡ true → text_lt t s ≡ false
text_lt-asym [] [] h = refl
text_lt-asym [] (b ∷ t) h = refl
text_lt-asym (a ∷ s) [] h = cc
text_lt-asym (a ∷ s) (b ∷ t) h = ground (arith, text_lt-asym s t)

-- No smaller and no smaller make no smaller.
text_lt-cotrans : (s t u : Text) → text_lt s t ≡ false → text_lt t u ≡ false → text_lt s u ≡ false
text_lt-cotrans [] [] u h k = k
text_lt-cotrans [] (b ∷ t) u h k = cc
text_lt-cotrans (a ∷ s) [] [] h k = refl
text_lt-cotrans (a ∷ s) [] (c ∷ u) h k = cc
text_lt-cotrans (a ∷ s) (b ∷ t) [] h k = refl
text_lt-cotrans (a ∷ s) (b ∷ t) (c ∷ u) h k = ground (arith, text_lt-cotrans s t u)

-- No later wager has a smaller ID.
abbrev pub AreById : List Wager → Type 0
AreById [] = Unit
AreById (w ∷ ws) = All (λ v. text_lt v.id w.id ≡ false) ws × AreById ws

all_inserted :
    (low w : Wager) (ws : List Wager)
    → text_lt w.id low.id ≡ false
    → All (λ v. text_lt v.id low.id ≡ false) ws
    → All (λ v. text_lt v.id low.id ≡ false) (insert_by_id w ws)
unfolding insert_by_id
all_inserted low w [] h all = (h, tt)
all_inserted low w (v ∷ vs) h (k, all) = elim (Bool-cases (text_lt v.id w.id)) [
  | inl before ↦ rw before (k, all_inserted low w vs h all)
  | inr after ↦ rw after (h, (k, all))
]

all_after :
    (w v : Wager) (vs : List Wager)
    → text_lt v.id w.id ≡ false
    → All (λ x. text_lt x.id v.id ≡ false) vs
    → All (λ x. text_lt x.id w.id ≡ false) vs
all_after w v [] h all = tt
all_after w v (x ∷ xs) h (k, all) = (text_lt-cotrans x.id v.id w.id k h, all_after w v xs h all)

insert_by_id-AreById : (w : Wager) (ws : List Wager) → AreById ws → AreById (insert_by_id w ws)
unfolding insert_by_id
insert_by_id-AreById w [] h = (tt, tt)
insert_by_id-AreById w (v ∷ vs) (h, hs) = elim (Bool-cases (text_lt v.id w.id)) [
  | inl before ↦
      rw before
        (all_inserted v w vs (text_lt-asym v.id w.id before) h, insert_by_id-AreById w vs hs)
  | inr after ↦ rw after ((after, all_after w v vs after h), (h, hs))
]

insert_by_id-perm : (w : Wager) (ws : List Wager) → Perm (insert_by_id w ws) (w ∷ ws)
unfolding insert_by_id
insert_by_id-perm w [] = Perm.rfl
insert_by_id-perm w (v ∷ vs) = elim (Bool-cases (text_lt v.id w.id)) [
  | inl before ↦ rw before (Perm.trans (Perm.cons v (insert_by_id-perm w vs)) (Perm.swap w v vs))
  | inr after ↦ rw after Perm.rfl
]

-- `sort.Slice` by the IDs gives the same wagers.
pub sort_by_id-perm : (ws : List Wager) → Perm (sort_by_id ws) ws
unfolding sort_by_id
sort_by_id-perm [] = Perm.rfl
sort_by_id-perm (w ∷ ws) =
    Perm.trans (insert_by_id-perm w (sort_by_id ws)) (Perm.cons w (sort_by_id-perm ws))

pub sort_by_id-AreById : (ws : List Wager) → AreById (sort_by_id ws)
unfolding sort_by_id
sort_by_id-AreById [] = tt
sort_by_id-AreById (w ∷ ws) = insert_by_id-AreById w (sort_by_id ws) (sort_by_id-AreById ws)
