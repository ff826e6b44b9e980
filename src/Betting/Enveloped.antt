-- ===== src/Betting/Enveloped.antt =====
-- Envelopes that the commands of the book build are always valid.
use go_book.Base.{arith, false, refl, true, ◌≡◌, ◌≤◌}
use go_book.Base.Int.{pos, ℤ, ◌<ℤ◌}
use go_book.Base.Result.{ok}
use go_book.Base.Text.{Text, byte_length, codes, is_blank}
use go_book.Betting.Payloads.{Payload, build_envelope, envelope_of}
use go_book.Betting.Types.{EntityId}
use go_book.Events.Envelope.{
  Time, is_zero, market_settled_event, matches_event_type, valid_uuid, validate_envelope,
  wager_accepted_event, wager_settled_event,
}

pub build_envelope-ok :
    (id aggregate_id : EntityId) (kind : Text) (version : ℤ) (event_type : Text) (at : Time)
    (p : Payload)
    → valid_uuid id ≡ true
    → valid_uuid aggregate_id ≡ true
    → is_blank kind ≡ false
    → byte_length kind ≤ 80
    → pos 0 <ℤ version
    → matches_event_type event_type ≡ true
    → is_zero at ≡ false
    → build_envelope id aggregate_id kind version event_type at p
      ≡ ok (envelope_of id aggregate_id kind version event_type at p)
unfolding build_envelope validate_envelope
build_envelope-ok id aggregate_id kind version event_type at p a b t l v m z =
    rw (a, b, t, m, z) (ground arith)

pub wager_kind : is_blank (codes "wager") ≡ false
unfolding is_blank
wager_kind = refl

pub wager_kind_short : byte_length (codes "wager") ≤ 80
unfolding byte_length
wager_kind_short = omega arith

pub wager_accepted_type : matches_event_type wager_accepted_event ≡ true
unfolding matches_event_type
wager_accepted_type = refl

pub wager_settled_type : matches_event_type wager_settled_event ≡ true
unfolding matches_event_type
wager_settled_type = refl

market_kind : is_blank (codes "market") ≡ false
unfolding is_blank
market_kind = refl

market_kind_short : byte_length (codes "market") ≤ 80
unfolding byte_length
market_kind_short = omega arith

market_settled_type : matches_event_type market_settled_event ≡ true
unfolding matches_event_type
market_settled_type = refl
