-- ===== src/Events/Envelope.antt =====
-- internal/events/envelope.go. The payload of an envelope is kept as the Go struct that it encodes:
-- the JSON of such a struct is always an object, which is what the last two checks of `Validate` ask.
-- Instants stand for UTC times.
use go_book.Base.{
  Bool, [], false, get_elem?, if◌then◌else◌, leb, length, ltb, none, not, some, true, ℕ, ◌%◌, ◌&&◌,
  ◌==◌, ◌||◌, ◌∷◌,
}
use go_book.Base.Int.{leb_ℤ, pos, ℤ}
use go_book.Base.Result.{Result, fail_if, ◌>>◌}
use go_book.Base.Text.{
  Text, all_digits, byte_length, codes, is_blank, is_digit, is_empty, is_lower, is_upper,
}

pub data EnvelopeError : Type 0 where
  invalid_envelope : EnvelopeError

-- Nanoseconds since the zero `time.Time`, which is 0.
abbrev pub Time : Type 0
Time = ℕ

abbrev pub is_zero : Time → Bool
is_zero t = t == 0

abbrev is_hex : ℕ → Bool
is_hex c = is_digit c || (leb b'a' c && leb c b'f') || (leb b'A' c && leb c b'F')

unfoldable pub all_hex : Text → Bool
all_hex [] = true
all_hex (c ∷ s) = is_hex c && all_hex s

unfoldable pub remove_dashes : Text → Text
remove_dashes [] = []
remove_dashes (c ∷ s) = let rest = remove_dashes s in if c == b'-' then rest else c ∷ rest

abbrev has_dash : Text → ℕ → Bool
has_dash value i = elim (get_elem? value i) [ none ↦ false | some c ↦ c == b'-' ]

-- A value with a code point beyond ASCII fails at the hex digits, as it does in the source.
unfoldable pub valid_uuid : Text → Bool
unfolding byte_length all_hex remove_dashes
valid_uuid value =
    byte_length value == 36
    && has_dash value 8
    && has_dash value 13
    && has_dash value 18
    && has_dash value 23
    && all_hex (remove_dashes value)
    && length (remove_dashes value) % 2 == 0

unfoldable pub version_suffix : Text → Bool
version_suffix (v ∷ d ∷ s) = v == b'v' && leb b'1' d && leb d b'9' && all_digits s
version_suffix _ = false

-- `started` says that a character follows the first capital.
unfoldable pub type_rest : Bool → Text → Bool
unfolding version_suffix
type_rest started [] = false
type_rest started (c ∷ s) =
    ((is_lower c || is_upper c || is_digit c) && type_rest true s)
    || (started && c == b'.' && version_suffix s)

-- `^[A-Z][A-Za-z0-9]+\.v[1-9][0-9]*$`
unfoldable pub matches_event_type : Text → Bool
unfolding type_rest
matches_event_type [] = false
matches_event_type (c ∷ s) = is_upper c && type_rest false s

abbrev pub match_result_verified : Text
match_result_verified = codes "MatchResultVerified.v1"

abbrev pub market_settled_event : Text
market_settled_event = codes "MarketSettled.v1"

abbrev pub wager_accepted_event : Text
wager_accepted_event = codes "WagerAccepted.v1"

abbrev pub wager_settled_event : Text
wager_settled_event = codes "WagerSettled.v1"

pub record Envelope (P : Type 0) : Type 0 where
  pub id : Text
  pub aggregate_type : Text
  pub aggregate_id : Text
  pub aggregate_version : ℤ
  pub event_type : Text
  pub payload : P
  pub occurred_at : Time
  pub correlation_id : Text
  pub causation_id : Text

-- `Envelope.Validate`
unfoldable pub validate_envelope : {P : Type 0} → Envelope P → Result EnvelopeError (Unit {0})
validate_envelope e = do
  fail_if (not (valid_uuid e.id) || not (valid_uuid e.aggregate_id)) invalid_envelope
  fail_if (is_blank e.aggregate_type || ltb 80 (byte_length e.aggregate_type)) invalid_envelope
  fail_if (leb_ℤ e.aggregate_version (pos 0)) invalid_envelope
  fail_if (not (matches_event_type e.event_type)) invalid_envelope
  fail_if (is_zero e.occurred_at) invalid_envelope
  fail_if (not (is_empty e.correlation_id) && not (valid_uuid e.correlation_id)) invalid_envelope
  fail_if (not (is_empty e.causation_id) && not (valid_uuid e.causation_id)) invalid_envelope
