-- ===== src/Identity/Issued.antt =====
-- A session that was issued is the one that its own secrets open.
use go_book.Base.{
  Bool, Bool-cases, List, Option-cases, [], ap, arith, false, inl, inr, length, refl, some, sym,
  true, ℕ, ◌++◌, ◌↔◌, ◌∙◌, ◌∷◌, ◌≡◌,
}
use go_book.Base.Int.{ℤ}
use go_book.Base.Result.{Result-cases, ok, ok-injective, require}
use go_book.Base.Text.{Text, codes, eq_of_text_eq, text_eq, text_eq_iff, text_eq_refl}
use go_book.Events.Envelope.{Time}
use go_book.Identity.Active.{complete_sign_in-IsIssued}
use go_book.Identity.Secrets.{
  Crypto, check_decoded, draft_of, generate_secret, hash_csrf_secret, hash_session_token, new_draft,
  parse_secret, truncated, validate_csrf, verify_csrf_secret, verify_parsed, verify_secret,
  verify_session_token,
}
use go_book.Identity.Service.{IssuedSession, Service, complete_sign_in}
use go_book.Identity.Session.{Digest, SessionDraft, validate_draft}
use go_book.Identity.Types.{Mail, VerifiedIdentity, invalid_csrf}

-- The hash of a token, and of a CSRF secret.
abbrev token_hash_of : Crypto → Text → Digest
token_hash_of c secret = c.sha256 (codes "cabot-cup/session-token/v1" ++ 0 ∷ [] ++ secret)

abbrev csrf_hash_of : Crypto → Text → Digest
csrf_hash_of c secret = c.sha256 (codes "cabot-cup/csrf-secret/v1" ++ 0 ∷ [] ++ secret)

-- What was handed out, and what else would open the session.
pub record IsOpened (c : Crypto) (token_bytes csrf_bytes : List ℕ) (made : IssuedSession)
    (presented : Text) : Type 0 where
  pub token_is : made.token ≡ c.encode token_bytes
  pub csrf_is : made.csrf_secret ≡ c.encode csrf_bytes
  pub token_has_form : parse_secret c made.token ≡ ok made.token
  pub csrf_has_form : parse_secret c made.csrf_secret ≡ ok made.csrf_secret
  pub token_opens : (verify_session_token c made.session.token_hash presented ≡ true) ↔ (
      (parse_secret c presented ≡ ok presented)
      × (token_hash_of c made.token ≡ token_hash_of c presented))
  pub csrf_opens : (validate_csrf c made.session presented ≡ ok tt) ↔ (
      (parse_secret c presented ≡ ok presented)
      × (csrf_hash_of c made.csrf_secret ≡ csrf_hash_of c presented))

require_iff : {P : Type 0} (b : Bool) → (b ≡ true) ↔ P → (require b invalid_csrf ≡ ok tt) ↔ P
require_iff true h = (λ e. h.0 refl, λ p. refl)
require_iff false h = (λ e. absurd (cc e), λ p. absurd (cc (h.1 p)))

module _ (c : Crypto)
    (reads_back : (bytes : List ℕ)
      → length bytes ≡ 32
      → c.decode (c.encode bytes) ≡ some bytes) where
  parse_secret-generated :
      (bytes : List ℕ) → length bytes ≡ 32 → parse_secret c (c.encode bytes) ≡ ok (c.encode bytes)
  unfolding parse_secret check_decoded
  parse_secret-generated bytes full =
      rw (reads_back bytes full, full, text_eq_refl (c.encode bytes)) refl

  parsed_itself :
      (presented secret : Text) → parse_secret c presented ≡ ok secret → secret ≡ presented
  unfolding parse_secret check_decoded
  parsed_itself presented secret e = elim (Option-cases (c.decode presented)) [
    | inl f ↦ ground arith
    | inr (bytes, f) ↦ ground arith
  ]

  -- A secret is taken exactly if it has the form of one and the hash that is expected.
  verify_secret_iff :
      (expected : Digest) (presented : Text) (hash : Text → Digest)
      → (verify_secret c expected presented hash ≡ true)
        ↔ ((parse_secret c presented ≡ ok presented) × (expected ≡ hash presented))
  unfolding verify_secret verify_parsed
  verify_secret_iff expected presented hash = elim (Result-cases (parse_secret c presented)) [
    | inr (x, f) ↦ (λ h. absurd (cc (rw f at h)), λ (g, e). absurd (cc (rw f at g)))
    | inl (secret, f) ↦
        let same = parsed_itself presented secret f in
        rw (f, same)
          (
            λ h. (refl, eq_of_text_eq expected (hash presented) h),
            λ (g, e). (text_eq_iff expected (hash presented)).1 e,
          )
  ]

  new_draft-is :
      (token_bytes csrf_bytes : List ℕ) (clock : Time) (lifetime : ℤ)
      {made : Text × Text × SessionDraft}
      → new_draft c (some token_bytes) (some csrf_bytes) clock lifetime ≡ ok made
      → made ≡ (
        c.encode token_bytes,
        c.encode csrf_bytes,
        draft_of c (c.encode token_bytes) (c.encode csrf_bytes) (truncated clock) lifetime,
      )
  unfolding new_draft generate_secret
  new_draft-is token_bytes csrf_bytes clock lifetime e =
      let token = c.encode token_bytes in
      let csrf = c.encode csrf_bytes in
      let d = draft_of c token csrf (truncated clock) lifetime in
      elim (Bool-cases (text_eq token csrf)) [
        | inl one ↦ absurd (cc (rw one at e))
        | inr two ↦ elim (Result-cases (validate_draft d)) [
          | inl (_, v) ↦ sym (ok-injective (rw (two, v) at e))
          | inr (x, v) ↦ absurd (cc (rw (two, v) at e))
        ]
      ]

  -- The secrets that a sign-in hands out open its session, whatever the store: where a sign-in succeeds,
  -- its token and its CSRF secret are what the two reads of random bytes encode to, and both have the form of
  -- a secret; a text that is presented is verified as the token of the session exactly if it has that form
  -- and the same hash under the context of tokens as the token, and is accepted as its CSRF secret exactly if
  -- it has that form and the same hash under the context of CSRF secrets. Base64 decodes what it has encoded,
  -- and each read of random bytes was full.
  pub issued_opens :
      (mail : Mail) (service : Service) (identity : VerifiedIdentity)
      (token_bytes csrf_bytes : List ℕ) (clock : Time) {made : IssuedSession} (presented : Text)
      → length token_bytes ≡ 32
      → length csrf_bytes ≡ 32
      → complete_sign_in mail c service (some token_bytes) (some csrf_bytes) clock identity
        ≡ ok made
      → IsOpened c token_bytes csrf_bytes made presented
  unfolding verify_session_token validate_csrf verify_csrf_secret hash_session_token
      hash_csrf_secret
  issued_opens mail service identity token_bytes csrf_bytes clock {made = made} presented full_token
        full_csrf signed_in =
      let ((token, csrf, d), drafted, (stored, token_made, csrf_made), _, _) =
        complete_sign_in-IsIssued mail c service (some token_bytes) (some csrf_bytes) clock identity
          signed_in in
      let is = new_draft-is token_bytes csrf_bytes clock service.lifetime drafted in
      let token_is = token_made ∙ ap (λ (r : Text × Text × SessionDraft). r.0) is in
      let csrf_is = csrf_made ∙ ap (λ (r : Text × Text × SessionDraft). r.1) is in
      let draft_is = ap (λ (r : Text × Text × SessionDraft). r.2) is in
      let token_hash_is = stored.token_is ∙ ap (λ (x : SessionDraft). x.token_hash) draft_is in
      let csrf_hash_is = stored.csrf_is ∙ ap (λ (x : SessionDraft). x.csrf_secret_hash) draft_is in
      record {
        token_is = token_is;
        csrf_is = csrf_is;
        token_has_form = rw token_is (parse_secret-generated token_bytes full_token);
        csrf_has_form = rw csrf_is (parse_secret-generated csrf_bytes full_csrf);
        token_opens =
            rw (token_is, token_hash_is)
              (verify_secret_iff (hash_session_token c (c.encode token_bytes)) presented
                (hash_session_token c));
        csrf_opens =
            rw (csrf_is, csrf_hash_is)
              (require_iff
                (verify_secret c (hash_csrf_secret c (c.encode csrf_bytes)) presented
                  (hash_csrf_secret c))
                (verify_secret_iff (hash_csrf_secret c (c.encode csrf_bytes)) presented
                  (hash_csrf_secret c)));
      }
