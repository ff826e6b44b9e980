-- ===== src/Identity/Session.antt =====
-- internal/identity/session.go, sessions. A digest is the list of its bytes; `is_zero_digest` tells the
-- one of zeros.
use go_book.Base.{Bool, [], false, ltb, not, true, ◌&&◌, ◌==◌, ◌||◌, ◌∷◌}
use go_book.Base.Result.{Result, err, fail_if, ok, require, ◌>>◌}
use go_book.Base.Text.{Text, is_blank, is_empty, text_eq}
use go_book.Events.Envelope.{Time, is_zero}
use go_book.Identity.Types.{
  Error, Mail, Principal, invalid_session, is_uuid, repository_contract, session_expired,
  session_revoked, sign_in_not_allowed, unauthenticated, validate_principal,
}

abbrev pub Digest : Type 0
Digest = Text

unfoldable pub is_zero_digest : Digest → Bool
is_zero_digest [] = true
is_zero_digest (b ∷ bs) = b == 0 && is_zero_digest bs

pub record Session : Type 0 where
  pub id : Text
  pub user_id : Text
  pub token_hash : Digest
  pub csrf_secret_hash : Digest
  pub created_at : Time
  pub last_seen_at : Time
  pub expires_at : Time
  pub revoked_at : Time
  pub revoke_reason : Text
  pub rotated_from : Text

abbrev same : Bool → Bool → Bool
same true b = b
same false b = not b

-- `Session.Validate`
unfoldable pub validate_session : Session → Result Error (Unit {0})
validate_session s = do
  fail_if
      (not (is_uuid s.id)
        || not (is_uuid s.user_id)
        || is_zero_digest s.token_hash
        || is_zero_digest s.csrf_secret_hash
        || text_eq s.token_hash s.csrf_secret_hash)
      invalid_session
  fail_if
      (is_zero s.created_at
        || ltb s.last_seen_at s.created_at
        || ltb s.expires_at s.last_seen_at
        || not (ltb s.created_at s.expires_at))
      invalid_session
  require (same (is_zero s.revoked_at) (is_blank s.revoke_reason)) invalid_session
  fail_if (not (is_zero s.revoked_at) && ltb s.revoked_at s.created_at) invalid_session
  fail_if (not (is_empty s.rotated_from) && not (is_uuid s.rotated_from)) invalid_session

-- `Session.ActiveAt`
unfoldable pub active_at : Session → Time → Result Error (Unit {0})
active_at s now = do
  validate_session s
  fail_if (is_zero now) invalid_session
  require (is_zero s.revoked_at) session_revoked
  require (ltb now s.expires_at) session_expired

pub record SessionDraft : Type 0 where
  pub token_hash : Digest
  pub csrf_secret_hash : Digest
  pub created_at : Time
  pub last_seen_at : Time
  pub expires_at : Time

-- `SessionDraft.validate`
unfoldable pub validate_draft : SessionDraft → Result Error (Unit {0})
validate_draft d = do
  fail_if
      (is_zero_digest d.token_hash
        || is_zero_digest d.csrf_secret_hash
        || text_eq d.token_hash d.csrf_secret_hash)
      invalid_session
  fail_if
      (is_zero d.created_at
        || not (d.last_seen_at == d.created_at)
        || not (ltb d.created_at d.expires_at))
      invalid_session

-- Any failure here is one of the store.
abbrev pub of_store : Result Error (Unit {0}) → Result Error (Unit {0})
of_store (err _) = err repository_contract
of_store (ok v) = ok v

unfoldable pub validate_stored_session :
    Mail → Session → Principal → SessionDraft → Result Error (Unit {0})
validate_stored_session mail s p d = do
  of_store (active_at s d.created_at)
  of_store (validate_principal mail p)
  fail_if
      (not (text_eq s.user_id p.user.id)
        || not (text_eq s.token_hash d.token_hash)
        || not (text_eq s.csrf_secret_hash d.csrf_secret_hash)
        || not (s.created_at == d.created_at)
        || not (s.last_seen_at == d.last_seen_at)
        || not (s.expires_at == d.expires_at))
      repository_contract

-- Expiry and revocation are the caller's to know; other failures are the store's.
abbrev pub of_activity : Result Error (Unit {0}) → Result Error (Unit {0})
of_activity (err session_expired) = err session_expired
of_activity (err session_revoked) = err session_revoked
of_activity (err _) = err repository_contract
of_activity (ok v) = ok v

abbrev pub of_principal : Result Error (Unit {0}) → Result Error (Unit {0})
of_principal (err sign_in_not_allowed) = err unauthenticated
of_principal (err _) = err repository_contract
of_principal (ok v) = ok v

unfoldable pub validate_active_session : Mail → Session → Principal → Time → Result Error (Unit {0})
validate_active_session mail s p now = do
  of_activity (active_at s now)
  of_principal (validate_principal mail p)
  require (text_eq s.user_id p.user.id) repository_contract
