-- ===== src/Events/Payloads.antt =====
-- internal/events/payloads.go: the payload of the event of a verified match result.
use go_book.Base.Text.{Text}

pub record MatchResultVerifiedPayload : Type 0 where
  pub match_id : Text
  pub competition_event_id : Text
  pub verification_id : Text
  pub outcome : Text
  pub winning_side_id : Text
  pub score : Text
