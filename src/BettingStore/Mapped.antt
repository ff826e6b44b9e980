-- ===== src/BettingStore/Mapped.antt =====
-- What the mapping of a verified result onto the selections of a market gives.
use go_book.Base.{
  Bool-cases, Option, [], arith, false, inl, inr, length, none, refl, some, true, ◌++◌, ◌==◌, ◌↔◌,
  ◌∷◌, ◌≡◌, ◌≢◌, ◌⊎◌,
}
use go_book.Base.Text.{
  Text, codes, empty, eq_of_text_eq, is_empty, text_eq, text_eq_iff, trim_space,
}
use go_book.Betting.Types.{EntityId, SettlementResult, result_loss, result_push, result_win}
use go_book.BettingStore.Mapping.{
  Keys, Outcomes, all_recognized, build_match_outcome, has_prefix, has_tie, recognized, side_key,
  side_outcome, tie_key, tie_outcome,
}

-- The outcome of one selection by its key.
abbrev pub Rule : Type 1
Rule = Text → SettlementResult → Type 0

-- Each selection of the market is graded once, in the order given, as the rule asks.
abbrev pub AllGraded : Rule → Keys → Outcomes → Type 0
AllGraded rule [] [] = Unit
AllGraded rule ((id, key) ∷ keys) ((id', result) ∷ rest) =
    (id' ≡ id) × rule key result × AllGraded rule keys rest
AllGraded rule _ _ = ⊥

-- The selection with the key wins, every other loses.
abbrev pub WinsBy : Text → Rule
WinsBy win_key key result =
    ((key ≡ win_key) × (result ≡ result_win)) ⊎ ((key ≢ win_key) × (result ≡ result_loss))

abbrev pub IsPush : Rule
IsPush key result = result ≡ result_push

abbrev pub AnyKey : Text → Keys → Type 0
AnyKey wanted [] = ⊥
AnyKey wanted ((_, key) ∷ keys) = (key ≡ wanted) ⊎ AnyKey wanted keys

-- The key of a tie or of a side, spaces around it left aside.
abbrev IsKnown : Text → Type 0
IsKnown key =
    (trim_space key ≡ codes "tie") ⊎ ((side : Text) × (trim_space key ≡ codes "side:" ++ side))

abbrev pub AllRecognized : Keys → Type 0
AllRecognized [] = Unit
AllRecognized ((_, key) ∷ keys) = IsKnown key × AllRecognized keys

-- What the mapping says of a result, by its kind.
abbrev pub IsMapped : Keys → Text → EntityId → Option Outcomes → Type 0
IsMapped keys outcome side none =
    (length keys ≡ 0)
    ⊎ (¬ AllRecognized keys)
    ⊎ ((outcome ≢ codes "side_win") × (outcome ≢ codes "tie"))
IsMapped keys outcome side (some result) =
    (length keys ≢ 0)
    × AllRecognized keys
    × (((outcome ≡ codes "side_win") × AllGraded (WinsBy (codes "side:" ++ side)) keys result)
        ⊎ ((outcome ≡ codes "tie")
            × AnyKey (codes "tie") keys
            × AllGraded (WinsBy (codes "tie")) keys result)
        ⊎ ((outcome ≡ codes "tie") × (¬ AnyKey (codes "tie") keys) × AllGraded IsPush keys result))

has_prefix_iff :
    (s prefix : Text) → (has_prefix s prefix ≡ true) ↔ ((rest : Text) × (s ≡ prefix ++ rest))
unfolding has_prefix
has_prefix_iff s [] = (λ h. (s, refl), λ h. refl)
has_prefix_iff [] (d ∷ prefix) = (λ h. absurd (cc h), λ (rest, e). absurd (cc e))
has_prefix_iff (c ∷ s) (d ∷ prefix) =
    let (there, back) = has_prefix_iff s prefix in
    (
      λ h.
          let (rest, e) = there (ground arith) in
          let same : c ≡ d = ground arith in (rest, λ i. same i ∷ e i),
      λ (rest, e). let tails = back (rest, ground arith) in ground arith,
    )

recognized_iff : (key : Text) → (recognized key ≡ true) ↔ IsKnown key
unfolding recognized
recognized_iff key = (recognized-IsKnown, known)
  where
    recognized-IsKnown : recognized key ≡ true → IsKnown key
    recognized-IsKnown h = elim (Bool-cases (text_eq (trim_space key) tie_key)) [
      | inl e ↦ inl (eq_of_text_eq (trim_space key) tie_key e)
      | inr e ↦ inr ((has_prefix_iff (trim_space key) (codes "side:")).0 (ground arith))
    ]

    known : IsKnown key → recognized key ≡ true
    known (inl e) = rw e refl
    known (inr (side, e)) =
        let starts = (has_prefix_iff (trim_space key) (codes "side:")).1 (side, e) in
        let some_text : is_empty (trim_space key) ≡ false = rw e refl in ground arith

all_recognized_iff : (keys : Keys) → (all_recognized keys ≡ true) ↔ AllRecognized keys
unfolding all_recognized
all_recognized_iff [] = (λ h. tt, λ h. refl)
all_recognized_iff ((id, key) ∷ keys) = ground (arith, recognized_iff key, all_recognized_iff keys)

has_tie_iff : (keys : Keys) → (has_tie keys ≡ true) ↔ AnyKey tie_key keys
unfolding has_tie
has_tie_iff [] = (λ h. cc, λ h. absurd h)
has_tie_iff ((id, key) ∷ keys) = ground (arith, text_eq_iff key tie_key, has_tie_iff keys)

side_outcome-AllGraded :
    (win_key : Text) (keys : Keys) → AllGraded (WinsBy win_key) keys (side_outcome win_key keys)
unfolding side_outcome
side_outcome-AllGraded win_key [] = tt
side_outcome-AllGraded win_key ((id, key) ∷ keys) =
    (refl, ground (arith, text_eq_iff key win_key), side_outcome-AllGraded win_key keys)

tie_outcome-won : (keys : Keys) → AllGraded (WinsBy tie_key) keys (tie_outcome true keys)
unfolding tie_outcome
tie_outcome-won [] = tt
tie_outcome-won ((id, key) ∷ keys) =
    (refl, ground (arith, text_eq_iff key tie_key), tie_outcome-won keys)

tie_outcome-push : (keys : Keys) → AllGraded IsPush keys (tie_outcome false keys)
unfolding tie_outcome
tie_outcome-push [] = tt
tie_outcome-push ((id, key) ∷ keys) = (refl, refl, tie_outcome-push keys)

tied_result :
    (keys : Keys) (outcome : Text)
    → outcome ≡ codes "tie"
    → let result = tie_outcome (has_tie keys) keys in
      ((outcome ≡ codes "tie") × AnyKey tie_key keys × AllGraded (WinsBy tie_key) keys result)
      ⊎ ((outcome ≡ codes "tie") × (¬ AnyKey tie_key keys) × AllGraded IsPush keys result)
tied_result keys outcome e = elim (Bool-cases (has_tie keys)) [
  | inl there ↦ rw there (inl (e, (has_tie_iff keys).0 there, tie_outcome-won keys))
  | inr no_tie ↦ rw no_tie (inr (e, ground (arith, has_tie_iff keys), tie_outcome-push keys))
]

-- A verified result is mapped onto a market exactly if the market has a selection, every key of it is
-- known, that of a tie or of a side, and the result is a win of a side or a tie, and then each selection is graded once: for a win
-- the selection of the winning side wins and every other loses; for a tie the selection of the tie wins
-- and every other loses, or all are pushed where there is none.
pub build_match_outcome-IsMapped :
    (keys : Keys) (outcome : Text) (side : EntityId)
    → IsMapped keys outcome side (build_match_outcome keys outcome side)
unfolding build_match_outcome
build_match_outcome-IsMapped keys outcome side = elim (Bool-cases (length keys == 0)) [
  | inl empty ↦ rw empty (inl (ground arith))
  | inr some_keys ↦ elim (Bool-cases (all_recognized keys)) [
    | inr unknown ↦ rw (some_keys, unknown) (inr (inl (ground (arith, all_recognized_iff keys))))
    | inl known ↦
        let all = (all_recognized_iff keys).0 known in
        let not_empty : length keys ≢ 0 = ground arith in
        elim (Bool-cases (text_eq outcome (codes "side_win"))) [
          | inl won ↦
              rw (some_keys, known, won)
                (
                  not_empty,
                  all,
                  inl (
                    eq_of_text_eq outcome (codes "side_win") won,
                    side_outcome-AllGraded (side_key side) keys,
                  ),
                )
          | inr not_won ↦ elim (Bool-cases (text_eq outcome (codes "tie"))) [
            | inl tied ↦
                rw (some_keys, known, not_won, tied)
                  (
                    not_empty,
                    all,
                    inr (tied_result keys outcome (eq_of_text_eq outcome (codes "tie") tied)),
                  )
            | inr other ↦
                rw (some_keys, known, not_won, other)
                  (inr (
                    inr (
                      ground (arith, text_eq_iff outcome (codes "side_win")),
                      ground (arith, text_eq_iff outcome (codes "tie")),
                    )))
          ]
        ]
  ]
]
