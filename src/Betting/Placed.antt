-- ===== src/Betting/Placed.antt =====
-- What a placed wager is: it passed every guard, and carries the terms of its selection.
use go_book.Base.{All, List, [], arith, false, refl, sym, true, ◌<◌, ◌↔◌, ◌∷◌, ◌≡◌, ◌≤◌, ◌⊎◌}
use go_book.Base.Int.{IsInt32, add64, int_laws, pos, wrap64_id, ℤ, ◌+ℤ◌, ◌<ℤ◌, ◌≤ℤ◌}
use go_book.Base.Result.{ok}
use go_book.Base.Text.{is_blank, is_empty_iff, text_eq_iff, trim_space}
use go_book.Betting.Place.{
  PlaceWagerCommand, Restriction, above_cap, check_open, check_placement, is_restricted,
  place_wager, placed, restricts,
}
use go_book.Betting.Types.{
  EntityId, Market, Wager, market_open, valid_id, validate_funding, validate_market,
  validate_selection, validate_wager, wager_pending,
}
use go_book.Events.Envelope.{Time, is_zero}
use go_book.Ledger.Money.{IsCurrency, Money}
use go_book.Ledger.Odds.{profit}
use go_book.Ledger.Profit.{currency-cases, profit-stake_bound}
use mathlib.Core.Path.{subst}

-- `cap` is no cap if it is zero or less.
abbrev pub WithinCap : ℤ → ℤ → ℤ → Type 0
WithinCap cap existing stake = pos 0 <ℤ cap → add64 existing stake ≤ℤ cap

-- A restriction bars a member from every selection, or from the one that it names.
abbrev pub IsBar : Restriction → EntityId → EntityId → Type 0
IsBar r user_id selection_id =
    (r.user_id ≡ user_id) × ((r.selection_id ≡ []) ⊎ (r.selection_id ≡ selection_id))

restricts_iff :
    (r : Restriction) (user_id selection_id : EntityId)
    → (restricts r user_id selection_id ≡ true) ↔ IsBar r user_id selection_id
unfolding restricts
restricts_iff r user_id selection_id = ground (
  arith,
  text_eq_iff r.user_id user_id,
  text_eq_iff r.selection_id selection_id,
  is_empty_iff r.selection_id,
)

pub is_restricted_iff :
    (rs : List Restriction) (user_id selection_id : EntityId)
    → (is_restricted rs user_id selection_id ≡ false) ↔ All (λ r. ¬ IsBar r user_id selection_id) rs
unfolding is_restricted
is_restricted_iff [] user_id selection_id = (λ h. tt, λ h. refl)
is_restricted_iff (r ∷ rs) user_id selection_id =
    ground (arith, restricts_iff r user_id selection_id, is_restricted_iff rs user_id selection_id)

pub record IsEligible (c : PlaceWagerCommand) : Type 0 where
  pub wager_named : valid_id c.wager_id ≡ true
  pub user_named : valid_id c.user_id ≡ true
  pub market_valid : validate_market c.market ≡ ok tt
  pub selection_valid : validate_selection c.selection ≡ ok tt
  pub on_market : c.selection.market_id ≡ c.market.id
  pub is_open : c.market.state ≡ market_open
  pub after_opening : c.market.opens_at ≤ c.now
  pub before_close : c.now < c.market.closes_at
  pub has_now : is_zero c.now ≡ false
  pub funding_valid : validate_funding c.funding ≡ ok tt
  pub keyed : is_blank c.idempotency_key ≡ false
  pub is_active : c.selection.active ≡ true
  pub unrestricted : All (λ r. ¬ IsBar r c.user_id c.selection.id) c.restrictions
  pub currency_valid : IsCurrency c.stake.currency
  pub same_currency : c.stake.currency ≡ c.market.currency
  pub positive : pos 0 <ℤ c.stake.cents
  pub within_market_cap : WithinCap c.max_stake_cents c.existing_stake_cents c.stake.cents
  pub within_side_cap :
      WithinCap c.selection_max_stake_cents c.existing_selection_stake_cents c.stake.cents
  pub within_total_cap :
      WithinCap c.total_stake_cap_cents c.existing_total_stake_cents c.stake.cents

pub check_open-inv :
    (m : Market) (now : Time)
    → check_open m now ≡ ok tt
    → (m.state ≡ market_open) × (m.opens_at ≤ now) × (now < m.closes_at)
unfolding check_open
check_open-inv m now h = ground arith

above_cap-WithinCap :
    (cap existing stake : ℤ) → above_cap cap existing stake ≡ false → WithinCap cap existing stake
above_cap-WithinCap cap existing stake h p = ground arith

check_placement-IsEligible : (c : PlaceWagerCommand) → check_placement c ≡ ok tt → IsEligible c
unfolding check_placement
check_placement-IsEligible c h = ground (
  arith,
  text_eq_iff c.selection.market_id c.market.id,
  text_eq_iff c.stake.currency c.market.currency,
  check_open-inv c.market c.now,
  currency-cases c.stake.currency,
  is_restricted_iff c.restrictions c.user_id c.selection.id,
)

pub check_open_complete :
    (m : Market) (now : Time)
    → m.state ≡ market_open
    → m.opens_at ≤ now
    → now < m.closes_at
    → check_open m now ≡ ok tt
unfolding check_open
check_open_complete m now e a b = ground arith

check_placement_complete : (c : PlaceWagerCommand) → IsEligible c → check_placement c ≡ ok tt
unfolding check_placement
check_placement_complete c h =
    let at = check_open_complete c.market c.now h.is_open h.after_opening h.before_close in
    let mid = (text_eq_iff c.selection.market_id c.market.id).1 h.on_market in
    let cur = (text_eq_iff c.stake.currency c.market.currency).1 h.same_currency in
    let free = (is_restricted_iff c.restrictions c.user_id c.selection.id).1 h.unrestricted in
    ground arith

-- What a pending wager takes from the command that places it.
pub record IsSnapshot (c : PlaceWagerCommand) (w : Wager) : Type 0 where
  pub id : w.id ≡ c.wager_id
  pub user_id : w.user_id ≡ c.user_id
  pub market_id : w.market_id ≡ c.market.id
  pub selection_id : w.selection_id ≡ c.selection.id
  pub funding : w.funding ≡ c.funding
  pub stake : w.stake ≡ c.stake
  pub odds : w.accepted_odds ≡ c.selection.offered_odds
  pub terms : w.accepted_terms ≡ c.selection.display_terms
  pub state : w.state ≡ wager_pending
  pub key : w.idempotency_key ≡ trim_space c.idempotency_key
  pub placed_by : w.placed_by ≡ c.placed_by
  pub placed_at : w.placed_at ≡ c.now

IsSnapshot-placed :
    (c : PlaceWagerCommand) (w : Wager) → IsSnapshot c w → placed c w.potential_profit ≡ w
IsSnapshot-placed c w s = sym (λ i. record {
  id = s.id i;
  user_id = s.user_id i;
  market_id = s.market_id i;
  selection_id = s.selection_id i;
  funding = s.funding i;
  stake = s.stake i;
  accepted_odds = s.odds i;
  accepted_terms = s.terms i;
  potential_profit = w.potential_profit;
  state = s.state i;
  idempotency_key = s.key i;
  placed_by = s.placed_by i;
  placed_at = s.placed_at i;
})

placed-IsSnapshot : (c : PlaceWagerCommand) (won : Money) → IsSnapshot c (placed c won)
placed-IsSnapshot c won = record {
  id = refl;
  user_id = refl;
  market_id = refl;
  selection_id = refl;
  funding = refl;
  stake = refl;
  odds = refl;
  terms = refl;
  state = refl;
  key = refl;
  placed_by = refl;
  placed_at = refl;
}

-- What an accepted placement is, the command and the wager side by side.
pub record IsPlaced (c : PlaceWagerCommand) (w : Wager) : Type 0 where
  pub eligible : IsEligible c
  pub snapshot : IsSnapshot c w
  pub valid : validate_wager w ≡ ok tt
  pub priced : profit c.selection.offered_odds c.stake ≡ ok w.potential_profit
  pub wins_a_cent : pos 0 <ℤ w.potential_profit.cents
  pub within_payout : pos 0 <ℤ c.max_payout_cents → w.potential_profit.cents ≤ℤ c.max_payout_cents

place_wager_sound : (c : PlaceWagerCommand) (w : Wager) → place_wager c ≡ ok w → IsPlaced c w
unfolding place_wager
place_wager_sound c w h =
    let taken : w ≡ placed c w.potential_profit = ground arith in
    record {
      eligible = ground (arith, check_placement-IsEligible c);
      snapshot = subst (IsSnapshot c) (sym taken) (placed-IsSnapshot c w.potential_profit);
      valid = ground arith;
      priced = ground arith;
      wins_a_cent = ground arith;
      within_payout = ground arith;
    }

place_wager_complete : (c : PlaceWagerCommand) (w : Wager) → IsPlaced c w → place_wager c ≡ ok w
unfolding place_wager
place_wager_complete c w p =
    let same = IsSnapshot-placed c w p.snapshot in
    let eligible = check_placement_complete c p.eligible in
    let valid : validate_wager (placed c w.potential_profit) ≡ ok tt = rw same p.valid in
    ground arith

-- A placement succeeds with a wager exactly when the command passes every guard (IDs, an open market
-- at the current time, an active selection of it, no restriction on the member for all selections or
-- for this one, the currency of the market, each of the three caps) and the wager is the pending snapshot
-- of the command, of the selection's price and of its terms, priced by the profit rule, valid, winning a
-- cent at least and within the payout ceiling.
pub place_wager_iff : (c : PlaceWagerCommand) (w : Wager) → (place_wager c ≡ ok w) ↔ IsPlaced c w
place_wager_iff c w = (place_wager_sound c w, place_wager_complete c w)

-- What the caller read from the database: sums of stakes that are held, from zero to
-- 9 * 10 ^ 18 cents.
abbrev pub IsHeld : ℤ → Type 0
IsHeld z = (pos 0 ≤ℤ z) × (z ≤ℤ pos 9_000_000_000_000_000_000)

exact_cap :
    (limit existing stake : ℤ)
    → IsHeld existing
    → pos 0 <ℤ stake
    → stake ≤ℤ pos 92_233_720_368_547_758
    → WithinCap limit existing stake
    → pos 0 <ℤ limit
    → existing +ℤ stake ≤ℤ limit
exact_cap limit existing stake held lo hi within p =
    rw (wrap64_id (existing +ℤ stake) (omega int_laws)) at (within p)

-- Where what is held is from zero to 9 * 10 ^ 18 cents, a placement at an int32 price leaves the exact
-- sum of what is held and the new stake within each cap that is set.
pub place_wager_caps :
    (c : PlaceWagerCommand) {w : Wager}
    → IsInt32 c.selection.offered_odds
    → IsHeld c.existing_stake_cents
    → IsHeld c.existing_selection_stake_cents
    → IsHeld c.existing_total_stake_cents
    → place_wager c ≡ ok w
    → (pos 0 <ℤ c.max_stake_cents → c.existing_stake_cents +ℤ w.stake.cents ≤ℤ c.max_stake_cents)
      × (pos 0 <ℤ c.selection_max_stake_cents
          → c.existing_selection_stake_cents +ℤ w.stake.cents ≤ℤ c.selection_max_stake_cents)
      × (pos 0 <ℤ c.total_stake_cap_cents
          → c.existing_total_stake_cents +ℤ w.stake.cents ≤ℤ c.total_stake_cap_cents)
place_wager_caps c {w} o h1 h2 h3 h =
    let p = place_wager_sound c w h in
    let top = profit-stake_bound c.selection.offered_odds c.stake o p.priced in
    let lo = p.eligible.positive in
    rw p.snapshot.stake (
      exact_cap _ _ _ h1 lo top p.eligible.within_market_cap,
      exact_cap _ _ _ h2 lo top p.eligible.within_side_cap,
      exact_cap _ _ _ h3 lo top p.eligible.within_total_cap,
    )
