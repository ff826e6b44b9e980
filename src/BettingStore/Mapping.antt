-- ===== src/BettingStore/Mapping.antt =====
-- internal/bettingpg/mapping.go. A Go map from selections to their keys is a list of pairs, each
-- selection once, in any order.
use go_book.Base.{
  Bool, List, Option, [], false, if◌then◌else◌, length, none, not, some, true, ◌&&◌, ◌++◌, ◌==◌,
  ◌||◌, ◌∷◌,
}
use go_book.Base.Text.{Text, codes, is_empty, text_eq, trim_space}
use go_book.Betting.Types.{EntityId, SettlementResult, result_loss, result_push, result_win}
use go_book.Competition.Submit.{side_id}

abbrev side_prefix : Text
side_prefix = codes "side:"

abbrev pub tie_key : Text
tie_key = codes "tie"

-- `sideSemanticKey`
abbrev pub side_key : EntityId → Text
side_key side_id = side_prefix ++ side_id

-- `strings.HasPrefix`
unfoldable pub has_prefix : Text → Text → Bool
has_prefix s [] = true
has_prefix [] (_ ∷ _) = false
has_prefix (c ∷ s) (d ∷ prefix) = c == d && has_prefix s prefix

abbrev pub Keys : Type 0
Keys = List (EntityId × Text)

abbrev pub Outcomes : Type 0
Outcomes = List (EntityId × SettlementResult)

-- A key that the convention knows, spaces around it left aside.
unfoldable pub recognized : Text → Bool
recognized key =
    let trimmed = trim_space key in
    not (is_empty trimmed) && (text_eq trimmed tie_key || has_prefix trimmed side_prefix)

unfoldable pub all_recognized : Keys → Bool
all_recognized [] = true
all_recognized ((_, key) ∷ keys) = recognized key && all_recognized keys

unfoldable pub has_tie : Keys → Bool
has_tie [] = false
has_tie ((_, key) ∷ keys) = text_eq key tie_key || has_tie keys

unfoldable pub side_outcome : Text → Keys → Outcomes
side_outcome win_key [] = []
side_outcome win_key ((id, key) ∷ keys) =
    (id, if text_eq key win_key then result_win else result_loss) ∷ side_outcome win_key keys

unfoldable pub tie_outcome : Bool → Keys → Outcomes
tie_outcome has_tie_selection [] = []
tie_outcome has_tie_selection ((id, key) ∷ keys) =
    (
      id,
      if not has_tie_selection
          then result_push
          else if text_eq key tie_key
          then result_win
          else result_loss,
    )
    ∷ tie_outcome has_tie_selection keys

-- `buildMatchOutcome`; `none` is `false` as its second result.
unfoldable pub build_match_outcome : Keys → Text → EntityId → Option Outcomes
build_match_outcome selections outcome winning_side_id =
    if length selections == 0 || not (all_recognized selections)
    then none
    else if text_eq outcome (codes "side_win")
    then some (side_outcome (side_key winning_side_id) selections)
    else if text_eq outcome (codes "tie")
    then some (tie_outcome (has_tie selections) selections)
    else none
