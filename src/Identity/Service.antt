-- ===== src/Identity/Service.antt =====
-- internal/identity/session.go, the service. The store is a parameter, and the service does not trust
-- what it returns. The state of the store is the store's own, so that a call is a function of the
-- arguments; the clock's reading and the reads of random bytes are arguments too.
use go_book.Base.{List, Option, none, some, ℕ, ◌||◌}
use go_book.Base.Int.{ltb_ℤ, pos, ℤ}
use go_book.Base.Result.{Result, err, fail_if, ok, require, ◌>>=◌, ◌>>◌}
use go_book.Base.Text.{Text, is_empty, text_eq, trim_space}
use go_book.Events.Envelope.{Time}
use go_book.Identity.Secrets.{Crypto, hash_session_token, new_draft, parse_secret}
use go_book.Identity.Session.{
  Digest, Session, SessionDraft, validate_active_session, validate_stored_session,
}
use go_book.Identity.Types.{
  Error, Mail, Principal, VerifiedIdentity, invalid_session, is_uuid, repository_contract,
  unauthenticated, validate_identity,
}

pub record Store : Type 0 where
  pub use_session : Digest → Time → Result Error (Session × Principal)
  pub rotate_session : Digest → SessionDraft → Time → Text → Result Error (Session × Principal)
  pub create_session : VerifiedIdentity → SessionDraft → Result Error (Session × Principal)
  pub create_invited : VerifiedIdentity → SessionDraft → Text → Result Error (Session × Principal)
  pub revoke_session : Digest → Time → Text → Result Error (Unit {0})

pub record IssuedSession : Type 0 where
  pub session : Session
  pub principal : Principal
  pub token : Text
  pub csrf_secret : Text

-- What is handed out: the session of the store, and the secrets that were made for it.
abbrev pub issued : Session × Principal → Text × Text × SessionDraft → IssuedSession
issued (session, principal) (token, csrf, draft) = record {
  session = session;
  principal = principal;
  token = token;
  csrf_secret = csrf;
}

-- `Service`: the store and the lifetime of a session in nanoseconds.
pub record Service : Type 0 where
  pub store : Store
  pub lifetime : ℤ

-- `NewService`: from five minutes to thirty days.
new_service : Option Store → ℤ → Result Error Service
new_service none lifetime = err invalid_session
new_service (some store) lifetime =
    fail_if (ltb_ℤ lifetime (pos 300_000_000_000) || ltb_ℤ (pos 2_592_000_000_000_000) lifetime)
      invalid_session
    >> ok (record { store = store; lifetime = lifetime })

module _ (mail : Mail) (c : Crypto) (service : Service) where
  -- `Service.Resume`
  unfoldable pub resume : Text → Time → Result Error (Session × Principal)
  resume raw_token now = elim (parse_secret c raw_token) [
    | err _ ↦ err unauthenticated
    | ok token ↦ do
      found ← service.store.use_session (hash_session_token c token) now
      require (text_eq found.0.token_hash (hash_session_token c token)) repository_contract
      validate_active_session mail found.0 found.1 now
      ok found
  ]

  -- `Service.Revoke`
  revoke : Text → Text → Time → Result Error (Unit {0})
  revoke raw_token reason now = elim (parse_secret c raw_token) [
    | err _ ↦ err unauthenticated
    | ok token ↦ do
      fail_if (is_empty (trim_space reason)) invalid_session
      service.store.revoke_session (hash_session_token c token) now (trim_space reason)
  ]

module _ (mail : Mail) (c : Crypto) (service : Service) (token_random csrf_random : Option (List ℕ))
    (clock : Time) where
  -- `Service.CompleteSignIn`
  unfoldable pub complete_sign_in : VerifiedIdentity → Result Error IssuedSession
  complete_sign_in identity = do
    validate_identity mail identity
    drafted ← new_draft c token_random csrf_random clock service.lifetime
    made ← service.store.create_session identity drafted.2
    validate_stored_session mail made.0 made.1 drafted.2
    require (is_empty made.0.rotated_from) repository_contract
    ok (issued made drafted)

  -- `Service.CompleteSignInWithInvitation`
  unfoldable pub complete_sign_in_with_invitation :
      VerifiedIdentity → Text → Result Error IssuedSession
  complete_sign_in_with_invitation identity invite_token = do
    validate_identity mail identity
    drafted ← new_draft c token_random csrf_random clock service.lifetime
    made ← service.store.create_invited identity drafted.2 invite_token
    validate_stored_session mail made.0 made.1 drafted.2
    require (is_empty made.0.rotated_from) repository_contract
    ok (issued made drafted)

  -- `Service.Rotate`
  unfoldable pub rotate : Text → Text → Result Error IssuedSession
  rotate raw_token reason = elim (parse_secret c raw_token) [
    | err _ ↦ err unauthenticated
    | ok token ↦ do
      fail_if (is_empty (trim_space reason)) invalid_session
      drafted ← new_draft c token_random csrf_random clock service.lifetime
      made ←
          service.store.rotate_session (hash_session_token c token) drafted.2 drafted.2.created_at
            (trim_space reason)
      validate_stored_session mail made.0 made.1 drafted.2
      require (is_uuid made.0.rotated_from) repository_contract
      ok (issued made drafted)
  ]
