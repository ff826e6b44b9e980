-- ===== src/Betting/Accepted.antt =====
-- What accepting a wager does: the stake moves from the member to escrow, and nothing else changes.
use go_book.Base.{Bool-cases, List, [], ap, arith, false, inl, inr, refl, true, ◌∷◌, ◌≡◌, ◌≢◌}
use go_book.Base.Blank.{is_blank-cons}
use go_book.Base.Int.{IsInt32, IsInt64, neg, neg-+ℤ, neg_parts, negsuc, pos, ℤ, ◌<ℤ◌}
use go_book.Base.Result.{ok}
use go_book.Base.Text.{Text, codes, eq_of_text_eq, is_space, text_eq, trim_space}
use go_book.Betting.Accept.{
  AcceptWagerResult, AcceptanceAccountRefs, accept_wager, acceptance, accepted_payload, posting,
  validate_acceptance_refs,
}
use go_book.Betting.Enveloped.{build_envelope-ok, wager_accepted_type, wager_kind, wager_kind_short}
use go_book.Betting.Payloads.{envelope_of}
use go_book.Betting.Types.{
  EntityId, Wager, valid_id, validate_wager, wager_accepted, wager_can_transition, wager_pending,
}
use go_book.Events.Envelope.{Time, is_zero, valid_uuid, wager_accepted_event}
use go_book.Ledger.Balance.{IsBalanced}
use go_book.Ledger.Money.{IsCurrency, Money, negate}
use go_book.Ledger.Posting.{Posting, validate_transaction, validate_type}
use go_book.Ledger.Profit.{currency-cases}
use go_book.Ledger.Sums.{negate_pos}
use go_book.Ledger.Transfers.{Apart, pair-IsBalanced, validate_transaction_iff}

-- A wager whose money fields are int64 and whose price is an int32.
pub record IsTyped (w : Wager) : Type 0 where
  pub stake_range : IsInt64 w.stake.cents
  pub profit_range : IsInt64 w.potential_profit.cents
  pub odds_range : IsInt32 w.accepted_odds

pub record HasStake (w : Wager) : Type 0 where
  pub currency : IsCurrency w.stake.currency
  pub positive : pos 0 <ℤ w.stake.cents

pub validate_wager-HasStake : (w : Wager) → validate_wager w ≡ ok tt → HasStake w
unfolding validate_wager
validate_wager-HasStake w h = ground (arith, currency-cases w.stake.currency)

validate_wager-id : (w : Wager) → validate_wager w ≡ ok tt → valid_id w.id ≡ true
unfolding validate_wager
validate_wager-id w h = ground arith

-- The opposite of a stake.
abbrev pub opposite : Money → Money
opposite m = record { cents = neg m.cents; currency = m.currency }

pub negate-stake :
    (w : Wager) → HasStake w → IsInt64 w.stake.cents → negate w.stake ≡ ok (opposite w.stake)
negate-stake w h r = negate_pos w.stake (record { in_range = r; valid = h.currency }) h.positive

pub record IsAcceptable (w : Wager) (actor : EntityId) (at : Time) (refs : AcceptanceAccountRefs)
    (event_id : EntityId) : Type 0 where
  pub valid : validate_wager w ≡ ok tt
  pub pending : w.state ≡ wager_pending
  pub by_actor : valid_id actor ≡ true
  pub apart : Apart refs.user_funding refs.escrow
  pub has_time : is_zero at ≡ false
  pub event_named : valid_id event_id ≡ true
  pub event_uuid : valid_uuid event_id ≡ true
  pub wager_uuid : valid_uuid w.id ≡ true

accept_wager-inv :
    (w : Wager) (actor : EntityId) (at : Time) (refs : AcceptanceAccountRefs) (event_id : EntityId)
    {r : AcceptWagerResult}
    → IsInt64 w.stake.cents
    → accept_wager w actor at refs event_id ≡ ok r
    → (r.wager ≡ record w { state = wager_accepted })
      × (r.transaction ≡ acceptance w actor refs (opposite w.stake))
      × (validate_transaction r.transaction ≡ ok tt)
      × (w.state ≡ wager_pending)
      × (validate_wager w ≡ ok tt)
unfolding accept_wager wager_can_transition
accept_wager-inv w actor at refs event_id range h =
    ground (arith, negate-stake w, validate_wager-HasStake w)

-- The postings of an acceptance.
abbrev pub acceptance_postings : Wager → AcceptanceAccountRefs → List Posting
acceptance_postings w refs =
    posting refs.user_funding (opposite w.stake) ∷ posting refs.escrow w.stake ∷ []

neg-ne-zero : (a : ℤ) → pos 0 <ℤ a → neg a ≢ pos 0
neg-ne-zero (pos n) h = ground arith
neg-ne-zero (negsuc n) h = ground arith

neg-range : (a : ℤ) → IsInt64 a → pos 0 <ℤ a → IsInt64 (neg a)
neg-range a r h = omega (arith, neg_parts a)

stake_moves :
    (w : Wager) (a b : Text)
    → HasStake w
    → IsInt64 w.stake.cents
    → Apart a b
    → IsBalanced w.stake.currency (posting a (opposite w.stake) ∷ posting b w.stake ∷ [])
stake_moves w a b h r apart =
    pair-IsBalanced w.stake.currency a b (neg w.stake.cents) w.stake.cents h.currency apart
      (neg-range _ r h.positive) (neg-ne-zero _ h.positive) (ground arith) (neg-+ℤ w.stake.cents)

Apart-ne : (a b : Text) → Apart a b → text_eq a b ≡ false
Apart-ne a b h = elim (Bool-cases (text_eq a b)) [
  | inl e ↦ absurd (h.2 (ap trim_space (eq_of_text_eq a b e)))
  | inr e ↦ e
]

validate_acceptance_refs-ok :
    (r : AcceptanceAccountRefs) → Apart r.user_funding r.escrow → validate_acceptance_refs r ≡ ok tt
unfolding validate_acceptance_refs
validate_acceptance_refs-ok r h = rw (h.0, h.1, Apart-ne _ _ h)

acceptance-valid :
    (w : Wager) (actor : EntityId) (refs : AcceptanceAccountRefs)
    → HasStake w
    → IsInt64 w.stake.cents
    → valid_id actor ≡ true
    → valid_id w.id ≡ true
    → Apart refs.user_funding refs.escrow
    → validate_transaction (acceptance w actor refs (opposite w.stake)) ≡ ok tt
unfolding validate_type is_space
acceptance-valid w actor refs h r ha hid apart =
    (validate_transaction_iff (acceptance w actor refs (opposite w.stake))
        (neg-range _ r h.positive, (r, tt))).1
      (
        record {
          known = refl;
          keyed = is_blank-cons b'w' _ refl;
          by_actor = ground arith;
          source_typed = is_blank-cons b'w' _ refl;
          sourced = ground arith;
          reverses = λ e. cc e;
          explained = λ e. cc e;
        },
        stake_moves w _ _ h r apart,
      )

-- Accepting succeeds for every wager that is valid and pending, under a named actor, with two
-- accounts apart, at a time, with UUIDs for the event and the wager: the wager turns accepted with all
-- else unchanged, and the transaction takes the stake from the member and puts it into escrow.
pub accept_wager_total :
    (w : Wager) (actor : EntityId) (at : Time) (refs : AcceptanceAccountRefs) (event_id : EntityId)
    → IsTyped w
    → IsAcceptable w actor at refs event_id
    → (r : AcceptWagerResult) × (accept_wager w actor at refs event_id ≡ ok r)
      × (r.wager ≡ record w { state = wager_accepted })
      × (r.transaction.postings ≡ acceptance_postings w refs)
unfolding accept_wager wager_can_transition
accept_wager_total w actor at refs event_id t a =
    let h = validate_wager-HasStake w a.valid in
    let txn = acceptance w actor refs (opposite w.stake) in
    (
      record {
        wager = record w { state = wager_accepted };
        transaction = txn;
        event =
            envelope_of event_id w.id (codes "wager") (pos 1) wager_accepted_event at
              (accepted_payload w);
      },
      rw (
        a.valid,
        a.pending,
        a.by_actor,
        validate_acceptance_refs-ok refs a.apart,
        a.has_time,
        a.event_named,
        negate-stake w h t.stake_range,
        acceptance-valid w actor refs h t.stake_range a.by_actor (validate_wager-id w a.valid)
            a.apart,
        build_envelope-ok event_id w.id (codes "wager") (pos 1) wager_accepted_event at
            (accepted_payload w) a.event_uuid a.wager_uuid wager_kind wager_kind_short (omega arith)
            wager_accepted_type a.has_time,
      ),
      refl,
      refl,
    )

-- Accepting a wager that has int64 amounts: it was pending; it turns accepted and keeps every other
-- field; exactly its stake leaves the member's account for escrow, in postings that balance.
pub accept_wager_moves_stake :
    (w : Wager) (actor : EntityId) (at : Time) (refs : AcceptanceAccountRefs) (event_id : EntityId)
    {r : AcceptWagerResult}
    → IsTyped w
    → accept_wager w actor at refs event_id ≡ ok r
    → (w.state ≡ wager_pending)
      × (r.wager ≡ record w { state = wager_accepted })
      × (r.transaction.postings ≡ acceptance_postings w refs)
      × IsBalanced w.stake.currency (acceptance_postings w refs)
accept_wager_moves_stake w actor at refs event_id {r} t h =
    let (moved, txn, valid, pending, checked) =
      accept_wager-inv w actor at refs event_id t.stake_range h in
    let good = validate_transaction_iff (acceptance w actor refs (opposite w.stake)) (
      neg-range _ t.stake_range (validate_wager-HasStake w checked).positive,
      (t.stake_range, tt),
    ) in
    (pending, moved, rw txn, (good.0 (rw txn at valid)).1)
