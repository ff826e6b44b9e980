-- ===== src/Identity/Secrets.antt =====
-- internal/identity/secrets.go. Base64 and SHA-256 are parameters, and a reader of random bytes is what
-- one full read of it gives: 32 bytes, or nothing.
use go_book.Base.{
  Bool, List, Option, [], false, length, none, not, some, ℕ, ◌%◌, ◌++◌, ◌+◌, ◌-◌, ◌==◌, ◌||◌, ◌∷◌,
}
use go_book.Base.Int.{pos_part, ℤ}
use go_book.Base.Result.{Result, err, fail_if, ok, require, ◌>>=◌, ◌>>◌}
use go_book.Base.Text.{Text, codes, text_eq}
use go_book.Events.Envelope.{Time}
use go_book.Identity.Session.{Digest, Session, SessionDraft, validate_draft}
use go_book.Identity.Types.{Error, invalid_csrf, invalid_secret, secret_generation}

-- `base64.RawURLEncoding`, none for a malformed text, and `sha256.Sum256`.
pub record Crypto : Type 0 where
  pub decode : Text → Option (List ℕ)
  pub encode : List ℕ → Text
  pub sha256 : Text → Digest

abbrev secret_bytes : ℕ
secret_bytes = 32

abbrev session_token_context : Text
session_token_context = codes "cabot-cup/session-token/v1" ++ 0 ∷ []

abbrev csrf_secret_context : Text
csrf_secret_context = codes "cabot-cup/csrf-secret/v1" ++ 0 ∷ []

-- `DigestFromBytes`
digest_from_bytes : List ℕ → Result Error Digest
digest_from_bytes value = require (length value == 32) invalid_secret >> ok value

-- PostgreSQL keeps microseconds.
abbrev pub truncated : Time → Time
truncated clock = clock - clock % 1000

module _ (c : Crypto) where
  unfoldable pub generate_secret : Option (List ℕ) → Result Error Text
  generate_secret none = err secret_generation
  generate_secret (some buffer) = ok (c.encode buffer)

  -- The guard of `ParseSecret` on what was decoded.
  unfoldable pub check_decoded : Option (List ℕ) → Text → Result Error Text
  check_decoded none value = err invalid_secret
  check_decoded (some decoded) value =
      fail_if (not (length decoded == secret_bytes) || not (text_eq (c.encode decoded) value))
        invalid_secret
      >> ok value

  -- `ParseSecret`
  unfoldable pub parse_secret : Text → Result Error Text
  parse_secret value = check_decoded (c.decode value) value

  -- `hashSecret`
  hash_secret : Text → Text → Digest
  hash_secret context secret = c.sha256 (context ++ secret)

  unfoldable pub hash_session_token : Text → Digest
  unfolding hash_secret
  hash_session_token secret = hash_secret session_token_context secret

  unfoldable pub hash_csrf_secret : Text → Digest
  unfolding hash_secret
  hash_csrf_secret secret = hash_secret csrf_secret_context secret

  unfoldable pub verify_parsed : Digest → Result Error Text → (Text → Digest) → Bool
  verify_parsed expected (err _) hash = false
  verify_parsed expected (ok secret) hash = text_eq expected (hash secret)

  -- `verifySecret`
  unfoldable pub verify_secret : Digest → Text → (Text → Digest) → Bool
  verify_secret expected presented hash = verify_parsed expected (parse_secret presented) hash

  unfoldable pub verify_session_token : Digest → Text → Bool
  verify_session_token expected presented = verify_secret expected presented hash_session_token

  unfoldable pub verify_csrf_secret : Digest → Text → Bool
  verify_csrf_secret expected presented = verify_secret expected presented hash_csrf_secret

  -- `ValidateCSRF`
  unfoldable pub validate_csrf : Session → Text → Result Error (Unit {0})
  validate_csrf session presented =
      require (verify_csrf_secret session.csrf_secret_hash presented) invalid_csrf

  abbrev pub draft_of : Text → Text → Time → ℤ → SessionDraft
  draft_of token csrf now lifetime = record {
    token_hash = hash_session_token token;
    csrf_secret_hash = hash_csrf_secret csrf;
    created_at = now;
    last_seen_at = now;
    expires_at = now + pos_part lifetime;
  }

  -- `newDraft`: the token, the CSRF secret and the draft.
  unfoldable pub new_draft :
      Option (List ℕ) → Option (List ℕ) → Time → ℤ → Result Error (Text × Text × SessionDraft)
  new_draft token_random csrf_random clock lifetime = do
    token ← generate_secret token_random
    csrf ← generate_secret csrf_random
    fail_if (text_eq token csrf) secret_generation
    let draft = draft_of token csrf (truncated clock) lifetime
    validate_draft draft
    ok (token, csrf, draft)
