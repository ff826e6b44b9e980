-- ===== src/Betting/Parlay/Distinct.antt =====
-- The legs of a parlay: each eligible, no two of one market.
use go_book.Base.{
  All, List, [], ap, arith, false, length, none, refl, sym, true, ◌<◌, ◌↔◌, ◌∙◌, ◌∷◌, ◌≡◌, ◌≢◌, ◌≤◌,
}
use go_book.Base.Result.{>>=-eq-ok, ok, ok-injective}
use go_book.Base.Text.{text_eq_iff}
use go_book.Betting.Parlay.Place.{ParlayLeg, PlaceParlayCommand, check_leg, leg_of, legs_of, seen}
use go_book.Betting.Placed.{IsBar, check_open-inv, check_open_complete, is_restricted_iff}
use go_book.Betting.Types.{
  EntityId, Market, Selection, market_match, market_open, validate_market, validate_selection,
}

pub record IsEligibleLeg (c : PlaceParlayCommand) (m : Market) (s : Selection) : Type 0 where
  pub market_valid : validate_market m ≡ ok tt
  pub selection_valid : validate_selection s ≡ ok tt
  pub on_market : s.market_id ≡ m.id
  pub is_a_match : m.kind ≡ market_match
  pub is_open : m.state ≡ market_open
  pub after_opening : m.opens_at ≤ c.now
  pub before_close : c.now < m.closes_at
  pub is_active : s.active ≡ true
  pub unrestricted : All (λ r. ¬ IsBar r c.user_id s.id) c.restrictions
  pub same_currency : c.stake.currency ≡ m.currency

check_leg-inv :
    (c : PlaceParlayCommand) (ids : List EntityId) (m : Market) (s : Selection)
    → check_leg c ids m s ≡ ok tt
    → IsEligibleLeg c m s × (seen m.id ids ≡ false)
unfolding check_leg
check_leg-inv c ids m s h = ground (
  arith,
  text_eq_iff s.market_id m.id,
  text_eq_iff c.stake.currency m.currency,
  check_open-inv m c.now,
  is_restricted_iff c.restrictions c.user_id s.id,
)

check_leg_complete :
    (c : PlaceParlayCommand) (ids : List EntityId) (m : Market) (s : Selection)
    → IsEligibleLeg c m s
    → seen m.id ids ≡ false
    → check_leg c ids m s ≡ ok tt
unfolding check_leg
check_leg_complete c ids m s h new =
    let at = check_open_complete m c.now h.is_open h.after_opening h.before_close in
    let mid = (text_eq_iff s.market_id m.id).1 h.on_market in
    let cur = (text_eq_iff c.stake.currency m.currency).1 h.same_currency in
    let free = (is_restricted_iff c.restrictions c.user_id s.id).1 h.unrestricted in ground arith

abbrev pub AllEligible : PlaceParlayCommand → List Market → List Selection → Type 0
AllEligible c (m ∷ ms) (s ∷ ss) = IsEligibleLeg c m s × AllEligible c ms ss
AllEligible c [] [] = Unit
AllEligible c _ _ = ⊥

-- No two of the markets are one.
abbrev pub AreDistinct : List Market → Type 0
AreDistinct [] = Unit
AreDistinct (m ∷ ms) = All (λ (n : Market). n.id ≢ m.id) ms × AreDistinct ms

abbrev pub AreNew : List EntityId → List Market → Type 0
AreNew ids = All (λ (m : Market). seen m.id ids ≡ false)

pub AreNew-nil : (ms : List Market) → AreNew [] ms
unfolding seen
AreNew-nil [] = tt
AreNew-nil (_ ∷ ms) = (refl, AreNew-nil ms)

-- The legs of the pairs.
unfoldable pub pairs : List Market → List Selection → List ParlayLeg
pairs (m ∷ ms) (s ∷ ss) = leg_of m s ∷ pairs ms ss
pairs _ _ = []

-- Each leg takes the terms of its market and of its selection, and has no result yet.
abbrev pub AreLegs : List Market → List Selection → List ParlayLeg → Type 0
AreLegs [] [] [] = Unit
AreLegs (m ∷ ms) (s ∷ ss) (l ∷ ls) =
    (l.market_id ≡ m.id)
    × (l.selection_id ≡ s.id)
    × (l.accepted_odds ≡ s.offered_odds)
    × (l.accepted_terms ≡ s.display_terms)
    × (l.market_title ≡ m.title)
    × (l.result ≡ none)
    × AreLegs ms ss ls
AreLegs _ _ _ = ⊥

pub pairs-AreLegs :
    (ms : List Market) (ss : List Selection) → length ms ≡ length ss → AreLegs ms ss (pairs ms ss)
unfolding pairs
pairs-AreLegs [] [] e = tt
pairs-AreLegs [] (s ∷ ss) e = absurd (omega (arith, e))
pairs-AreLegs (m ∷ ms) [] e = absurd (omega (arith, e))
pairs-AreLegs (m ∷ ms) (s ∷ ss) e =
    (refl, refl, refl, refl, refl, refl, pairs-AreLegs ms ss (omega (arith, e)))

pub AreLegs-pairs :
    (ms : List Market) (ss : List Selection) (ls : List ParlayLeg)
    → AreLegs ms ss ls
    → ls ≡ pairs ms ss
unfolding pairs
AreLegs-pairs [] [] [] h = refl
AreLegs-pairs [] [] (l ∷ ls) h = elim h [ ]
AreLegs-pairs [] (s ∷ ss) ls h = elim h [ ]
AreLegs-pairs (m ∷ ms) [] ls h = elim h [ ]
AreLegs-pairs (m ∷ ms) (s ∷ ss) [] h = elim h [ ]
AreLegs-pairs (m ∷ ms) (s ∷ ss) (l ∷ ls) (mid, sid, odds, terms, title, no_result, rest) = λ i.
    record {
      market_id = mid i;
      selection_id = sid i;
      accepted_odds = odds i;
      accepted_terms = terms i;
      market_title = title i;
      result = no_result i;
    }
    ∷ AreLegs-pairs ms ss ls rest i

AreNew-split :
    (id : EntityId) (ids : List EntityId) (ms : List Market)
    → AreNew (id ∷ ids) ms ↔ (All (λ (n : Market). n.id ≢ id) ms × AreNew ids ms)
unfolding seen
AreNew-split id ids [] = (λ h. (tt, tt), λ h. tt)
AreNew-split id ids (m ∷ ms) =
    let (there, back) = AreNew-split id ids ms in
    (
      λ (h, hs). let (different, new) = there hs in ground (arith, text_eq_iff m.id id),
      λ ((d, ds), (n, ns)). (ground (arith, text_eq_iff m.id id), back (ds, ns)),
    )

-- The loop makes its legs exactly from eligible pairs of distinct markets.
pub legs_of_iff :
    (c : PlaceParlayCommand) (ids : List EntityId) (ms : List Market) (ss : List Selection)
    (legs : List ParlayLeg)
    → length ms ≡ length ss
    → (legs_of c ids ms ss ≡ ok legs)
      ↔ (AllEligible c ms ss × AreDistinct ms × AreNew ids ms × (legs ≡ pairs ms ss))
unfolding legs_of pairs
legs_of_iff c ids [] [] legs e = (λ h. ground arith, λ h. ground arith)
legs_of_iff c ids [] (s ∷ ss) legs e = absurd (omega (arith, e))
legs_of_iff c ids (m ∷ ms) [] legs e = absurd (omega (arith, e))
legs_of_iff c ids (m ∷ ms) (s ∷ ss) legs e =
    let (there, back) = AreNew-split m.id ids ms in
    (
      λ h.
          let (_, checked, rest) = >>=-eq-ok (check_leg c ids m s) _ h in
          let (made, looped, last) = >>=-eq-ok (legs_of c (m.id ∷ ids) ms ss) _ rest in
          let (leg, new) = check_leg-inv c ids m s checked in
          let (eligible, distinct, others, same) =
            (legs_of_iff c (m.id ∷ ids) ms ss made (omega (arith, e))).0 looped in
          let (different, still_new) = there others in
          (
            (leg, eligible),
            (different, distinct),
            (new, still_new),
            sym (ok-injective last) ∙ ap (λ (l : List ParlayLeg). leg_of m s ∷ l) same,
          ),
      λ ((leg, eligible), (different, distinct), (new, still_new), same).
          let looped =
            (legs_of_iff c (m.id ∷ ids) ms ss (pairs ms ss) (omega (arith, e))).1
              (eligible, distinct, back (different, still_new), refl) in
          rw (check_leg_complete c ids m s leg new, looped, same) refl,
    )
