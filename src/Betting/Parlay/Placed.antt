-- ===== src/Betting/Parlay/Placed.antt =====
-- What a placed parlay is.
use go_book.Base.{List, [], ap, arith, false, length, refl, sym, true, ◌↔◌, ◌≡◌, ◌≤◌, ◌⊎◌}
use go_book.Base.Int.{pos, ◌*ℤ◌, ◌<ℤ◌, ◌≤ℤ◌}
use go_book.Base.Result.{>>=-eq-ok, ok}
use go_book.Base.Text.{is_blank, trim_space}
use go_book.Betting.Parlay.Distinct.{
  AllEligible, AreDistinct, AreLegs, AreLegs-pairs, AreNew-nil, legs_of_iff, pairs, pairs-AreLegs,
}
use go_book.Betting.Parlay.Place.{
  Parlay, ParlayLeg, PlaceParlayCommand, check_parlay, leg_odds, legs_of, parlay, place_parlay,
}
use go_book.Betting.Parlay.Price.{parlay_odds_for}
use go_book.Betting.Parlay.Priced.{IsPriced, parlay_odds_for-IsPriced}
use go_book.Betting.Types.{valid_id, validate_funding, wager_pending}
use go_book.Events.Envelope.{is_zero}
use go_book.Ledger.Money.{IsCurrency, Money}
use go_book.Ledger.Odds.{AmericanOdds, profit}
use go_book.Ledger.Profit.{currency-cases}
use go_book.Ledger.Returns.{profit-within}
use go_book.Pricing.Floats.{Floats}
use mathlib.Core.Path.{subst}

pub record IsReadyParlay (c : PlaceParlayCommand) : Type 0 where
  pub parlay_named : valid_id c.parlay_id ≡ true
  pub user_named : valid_id c.user_id ≡ true
  pub paired : length c.markets ≡ length c.selections
  pub two_at_least : 2 ≤ length c.markets
  pub eight_at_most : length c.markets ≤ 8
  pub has_now : is_zero c.now ≡ false
  pub funding_valid : validate_funding c.funding ≡ ok tt
  pub currency_valid : IsCurrency c.stake.currency
  pub positive : pos 0 <ℤ c.stake.cents
  pub keyed : is_blank c.idempotency_key ≡ false

check_parlay-inv : (c : PlaceParlayCommand) → check_parlay c ≡ ok tt → IsReadyParlay c
unfolding check_parlay
check_parlay-inv c h = ground (arith, currency-cases c.stake.currency)

check_parlay_complete : (c : PlaceParlayCommand) → IsReadyParlay c → check_parlay c ≡ ok tt
unfolding check_parlay
check_parlay_complete c h = ground arith

-- What a pending parlay takes from the command that places it, besides its legs.
pub record IsParlaySnapshot (c : PlaceParlayCommand) (p : Parlay) : Type 0 where
  pub id : p.id ≡ c.parlay_id
  pub user_id : p.user_id ≡ c.user_id
  pub funding : p.funding ≡ c.funding
  pub stake : p.stake ≡ c.stake
  pub state : p.state ≡ wager_pending
  pub key : p.idempotency_key ≡ trim_space c.idempotency_key
  pub placed_by : p.placed_by ≡ c.placed_by
  pub placed_at : p.placed_at ≡ c.now

snapshot-eq :
    (c : PlaceParlayCommand) (p : Parlay)
    → IsParlaySnapshot c p
    → p ≡ parlay c p.accepted_odds p.potential_profit p.legs
snapshot-eq c p s = λ i. record {
  id = s.id i;
  user_id = s.user_id i;
  funding = s.funding i;
  stake = s.stake i;
  accepted_odds = p.accepted_odds;
  potential_profit = p.potential_profit;
  legs = p.legs;
  state = s.state i;
  idempotency_key = s.key i;
  placed_by = s.placed_by i;
  placed_at = s.placed_at i;
}

snapshot_of :
    (c : PlaceParlayCommand) (price : AmericanOdds) (won : Money) (ls : List ParlayLeg)
    → IsParlaySnapshot c (parlay c price won ls)
snapshot_of c price won ls = record {
  id = refl;
  user_id = refl;
  funding = refl;
  stake = refl;
  state = refl;
  key = refl;
  placed_by = refl;
  placed_at = refl;
}

module _ {F : Type 0} (fl : Floats F) where
  pub record IsPlacedParlay (c : PlaceParlayCommand) (p : Parlay) : Type 0 where
    pub ready : IsReadyParlay c
    pub eligible : AllEligible c c.markets c.selections
    pub distinct : AreDistinct c.markets
    pub snapshot : IsParlaySnapshot c p
    pub legs_are : AreLegs c.markets c.selections p.legs
    pub combined : parlay_odds_for fl (leg_odds p.legs) c.juice_basis_points ≡ ok p.accepted_odds
    pub priced : profit p.accepted_odds c.stake ≡ ok p.potential_profit
    pub wins_a_cent : pos 0 <ℤ p.potential_profit.cents
    pub within_payout :
        (c.max_payout_cents ≤ℤ pos 0) ⊎ (p.potential_profit.cents ≤ℤ c.max_payout_cents)

  place_parlay_sound :
      (c : PlaceParlayCommand) (p : Parlay) → place_parlay fl c ≡ ok p → IsPlacedParlay c p
  unfolding place_parlay
  place_parlay_sound c p h =
      let (_, checked, rest) = >>=-eq-ok (check_parlay c) _ h in
      let (ls, looped, last) = >>=-eq-ok (legs_of c [] c.markets c.selections) _ rest in
      let ready = check_parlay-inv c checked in
      let (eligible, distinct, _, same) =
        (legs_of_iff c [] c.markets c.selections ls ready.paired).0 looped in
      let combined = rw same at last in
      let ls = pairs c.markets c.selections in
      let made : p ≡ parlay c p.accepted_odds p.potential_profit ls = ground arith in
      record {
        ready = ready;
        eligible = eligible;
        distinct = distinct;
        snapshot =
            subst (IsParlaySnapshot c) (sym made)
              (snapshot_of c p.accepted_odds p.potential_profit ls);
        legs_are =
            subst (λ (q : Parlay). AreLegs c.markets c.selections q.legs) (sym made)
              (pairs-AreLegs c.markets c.selections ready.paired);
        combined = rw (ap (λ (q : Parlay). q.legs) made) (ground arith);
        priced = ground arith;
        wins_a_cent = ground arith;
        within_payout = ground arith;
      }

  place_parlay_complete :
      (c : PlaceParlayCommand) (p : Parlay) → IsPlacedParlay c p → place_parlay fl c ≡ ok p
  unfolding place_parlay
  place_parlay_complete c p h =
      let looped =
        (legs_of_iff c [] c.markets c.selections (pairs c.markets c.selections) h.ready.paired).1
          (h.eligible, h.distinct, AreNew-nil c.markets, refl) in
      let legs_eq = AreLegs-pairs c.markets c.selections p.legs h.legs_are in
      let combined = rw legs_eq at h.combined in
      let made = snapshot-eq c p h.snapshot in
      rw (check_parlay_complete c h.ready, looped, combined, h.priced) (ground arith)

  -- A parlay is struck exactly when its IDs, funding, stake, key and time are good, it has from two to
  -- eight legs, each an active selection of its own open match market in the currency of the stake that
  -- the member is not barred from, no two of one market, the legs combine to a price, the profit at
  -- that price is a cent at least and within the payout ceiling where there is one; and it is then
  -- pending, with the IDs, funding, stake, key, placer and time of the command, one leg for each selection
  -- with its price and terms and the title of its market and with no result, that price and that profit.
  pub place_parlay_iff :
      (c : PlaceParlayCommand) (p : Parlay) → (place_parlay fl c ≡ ok p) ↔ IsPlacedParlay c p
  place_parlay_iff c p = (place_parlay_sound c p, place_parlay_complete c p)

  -- What a parlay can cost the book.
  pub record IsBounded (p : Parlay) : Type 0 where
    pub price_from : pos 100 ≤ℤ p.accepted_odds
    pub price_to : p.accepted_odds ≤ℤ pos 10_000
    pub wins_the_stake : p.stake.cents ≤ℤ p.potential_profit.cents
    pub wins_hundredfold : p.potential_profit.cents ≤ℤ p.stake.cents *ℤ pos 100

  -- A parlay that is struck is priced from +100 to +10000 and so wins at least its stake and at most a
  -- hundred times as much, whatever its legs and the floating-point arithmetic.
  pub place_parlay-IsBounded :
      (c : PlaceParlayCommand) {p : Parlay} → place_parlay fl c ≡ ok p → IsBounded p
  place_parlay-IsBounded c {p} h =
      let placed = place_parlay_sound c p h in
      let price =
        subst (IsPriced fl (leg_odds p.legs) c.juice_basis_points) placed.combined
          (parlay_odds_for-IsPriced fl (leg_odds p.legs) c.juice_basis_points) in
      let (_, _, _, _, lo, hi) = price in
      let (least, most) =
        profit-within p.accepted_odds c.stake lo hi placed.ready.positive placed.priced in
      rw placed.snapshot.stake
        (record { price_from = lo; price_to = hi; wins_the_stake = least; wins_hundredfold = most })
