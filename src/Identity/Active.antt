-- ===== src/Identity/Active.antt =====
-- A session that the service hands out is live and belongs to its principal, whatever the store returns.
use go_book.Base.{List, Option, arith, false, inl, inr, true, ℕ, ◌<◌, ◌≡◌, ◌≢◌, ◌≤◌}
use go_book.Base.Result.{Result, Result-cases, err, ok, require, ◌>>=◌, ◌>>◌}
use go_book.Base.Text.{Text, is_blank, is_empty, text_eq_iff, trim_space}
use go_book.Events.Envelope.{Time, is_zero}
use go_book.Identity.Allowed.{IsSignedIn, validate_principal_iff}
use go_book.Identity.Secrets.{Crypto, hash_session_token, new_draft, parse_secret}
use go_book.Identity.Service.{
  IssuedSession, Service, complete_sign_in, complete_sign_in_with_invitation, issued, resume,
  rotate,
}
use go_book.Identity.Session.{
  Session, SessionDraft, active_at, of_activity, of_principal, of_store, validate_active_session,
  validate_session, validate_stored_session,
}
use go_book.Identity.Types.{
  Error, Mail, Principal, VerifiedIdentity, is_uuid, repository_contract, validate_identity,
  validate_principal,
}

pub record IsLive (s : Session) (now : Time) : Type 0 where
  pub created_first : s.created_at < s.expires_at
  pub seen_between : (s.created_at ≤ s.last_seen_at) × (s.last_seen_at ≤ s.expires_at)
  pub not_expired : now < s.expires_at
  pub not_revoked : is_zero s.revoked_at ≡ true
  pub no_reason : is_blank s.revoke_reason ≡ true
  pub hashes_differ : s.token_hash ≢ s.csrf_secret_hash

active_at-IsLive : (s : Session) (now : Time) → active_at s now ≡ ok tt → IsLive s now
unfolding active_at validate_session
active_at-IsLive s now e = record {
  created_first = ground arith;
  seen_between = ground arith;
  not_expired = ground arith;
  not_revoked = ground arith;
  no_reason = ground arith;
  hashes_differ = ground (arith, text_eq_iff s.token_hash s.csrf_secret_hash);
}

-- A session of a principal who is signed in.
pub record IsSession (mail : Mail) (s : Session) (p : Principal) (now : Time) : Type 0 where
  pub live : IsLive s now
  pub signed_in : IsSignedIn mail p
  pub of_user : s.user_id ≡ p.user.id

of_activity-ok : (r : Result Error (Unit {0})) → of_activity r ≡ ok tt → r ≡ ok tt
of_activity-ok (ok v) e = e
of_activity-ok (err x) e = ground arith

of_principal-ok : (r : Result Error (Unit {0})) → of_principal r ≡ ok tt → r ≡ ok tt
of_principal-ok (ok v) e = e
of_principal-ok (err x) e = ground arith

validate_active_session-IsSession :
    (mail : Mail) (s : Session) (p : Principal) (now : Time)
    → validate_active_session mail s p now ≡ ok tt
    → IsSession mail s p now
unfolding validate_active_session
validate_active_session-IsSession mail s p now e = record {
  live = active_at-IsLive s now (of_activity-ok (active_at s now) (ground arith));
  signed_in =
      (validate_principal_iff mail p).0
        (of_principal-ok (validate_principal mail p) (ground arith));
  of_user = ground (arith, text_eq_iff s.user_id p.user.id);
}

pub record IsResumed (mail : Mail) (c : Crypto) (raw_token : Text) (now : Time)
    (found : Session × Principal) : Type 0 where
  pub token : Text
  pub parsed : parse_secret c raw_token ≡ ok token
  pub by_token : found.0.token_hash ≡ hash_session_token c token
  pub session : IsSession mail found.0 found.1 now

-- A session that is resumed, from any store: the token parses, the session is the one of its hash, it
-- has not expired and is not revoked at the current time, and it belongs to an active user with a
-- membership of his own that is not revoked.
pub resume-IsResumed :
    (mail : Mail) (c : Crypto) (service : Service) (raw_token : Text) (now : Time)
    {found : Session × Principal}
    → resume mail c service raw_token now ≡ ok found
    → IsResumed mail c raw_token now found
unfolding resume
resume-IsResumed mail c service raw_token now {found} e =
    elim (Result-cases (parse_secret c raw_token)) [
      | inr (x, f) ↦ ground arith
      | inl (token, f) ↦
          let hash = hash_session_token c token in
          elim (Result-cases (service.store.use_session hash now)) [
            | inr (x, g) ↦ ground arith
            | inl ((s, p), g) ↦ record {
              token = token;
              parsed = f;
              by_token = ground (arith, text_eq_iff s.token_hash hash);
              session = validate_active_session-IsSession mail found.0 found.1 now (ground arith);
            }
          ]
    ]

of_store-ok : (r : Result Error (Unit {0})) → of_store r ≡ ok tt → r ≡ ok tt
of_store-ok (ok v) e = e
of_store-ok (err x) e = cc

-- A session that is kept as its draft, of a principal who is signed in.
pub record IsStored (mail : Mail) (d : SessionDraft) (s : Session) (p : Principal) : Type 0 where
  pub session : IsSession mail s p d.created_at
  pub token_is : s.token_hash ≡ d.token_hash
  pub csrf_is : s.csrf_secret_hash ≡ d.csrf_secret_hash
  pub expiry_is : s.expires_at ≡ d.expires_at
  pub created_is : s.created_at ≡ d.created_at

validate_stored_session-IsStored :
    (mail : Mail) (s : Session) (p : Principal) (d : SessionDraft)
    → validate_stored_session mail s p d ≡ ok tt
    → IsStored mail d s p
unfolding validate_stored_session
validate_stored_session-IsStored mail s p d e = record {
  session = record {
    live = active_at-IsLive s d.created_at (of_store-ok (active_at s d.created_at) (ground arith));
    signed_in =
        (validate_principal_iff mail p).0 (of_store-ok (validate_principal mail p) (ground arith));
    of_user = ground (arith, text_eq_iff s.user_id p.user.id);
  };
  token_is = ground (arith, text_eq_iff s.token_hash d.token_hash);
  csrf_is = ground (arith, text_eq_iff s.csrf_secret_hash d.csrf_secret_hash);
  expiry_is = ground arith;
  created_is = ground arith;
}

-- What is issued from a draft: its session, and the two secrets that were made with it.
abbrev pub IsIssued : Mail → Text × Text × SessionDraft → IssuedSession → Type 0
IsIssued mail (token, csrf, d) made =
    IsStored mail d made.session made.principal × (made.token ≡ token) × (made.csrf_secret ≡ csrf)

module _ (mail : Mail) (c : Crypto) (service : Service) (token_random csrf_random : Option (List ℕ))
    (clock : Time) where
  abbrev drafting : Result Error (Text × Text × SessionDraft)
  drafting = new_draft c token_random csrf_random clock service.lifetime

  -- A rotation that succeeds, from any store: a reason was given, the draft was made, the new session is
  -- live and belongs to a signed-in principal, has the hashes and the times of the draft, and names the
  -- session it replaces by a UUID; the secrets of the draft are handed out.
  rotate-IsIssued :
      (raw_token reason : Text) {made : IssuedSession}
      → rotate mail c service token_random csrf_random clock raw_token reason ≡ ok made
      → (drafted : Text × Text × SessionDraft) × (drafting ≡ ok drafted)
        × IsIssued mail drafted made
        × (is_uuid made.session.rotated_from ≡ true)
        × (is_empty (trim_space reason) ≡ false)
  unfolding rotate
  rotate-IsIssued raw_token reason {made} e = elim (Result-cases (parse_secret c raw_token)) [
    | inr (x, f) ↦ ground arith
    | inl (token, f) ↦ elim (Result-cases drafting) [
      | inr (x, g) ↦ ground arith
      | inl ((new_token, csrf, d), g) ↦
          elim (Result-cases (
            service.store.rotate_session (hash_session_token c token) d d.created_at
              (trim_space reason))) [
                | inr (x, h) ↦ ground arith
                | inl ((s, p), h) ↦ (
                  (new_token, csrf, d),
                  g,
                  (
                    validate_stored_session-IsStored mail made.session made.principal d
                        (ground arith),
                    ground arith,
                    ground arith,
                  ),
                  ground arith,
                  ground arith,
                )
              ]
    ]
  ]

  -- What both sign-ins do once the identity is known.
  made_from :
      (identity : VerifiedIdentity) (create : SessionDraft → Result Error (Session × Principal))
      {made : IssuedSession}
      → (validate_identity mail identity
          >> (drafting >>= λ drafted. create drafted.2 >>= λ found.
              validate_stored_session mail found.0 found.1 drafted.2
              >> (require (is_empty found.0.rotated_from) repository_contract
                  >> ok (issued found drafted))))
        ≡ ok made
      → (drafted : Text × Text × SessionDraft) × (drafting ≡ ok drafted)
        × IsIssued mail drafted made
        × (is_empty made.session.rotated_from ≡ true)
        × (validate_identity mail identity ≡ ok tt)
  made_from identity create {made} e = elim (Result-cases (validate_identity mail identity)) [
    | inr (x, f) ↦ ground arith
    | inl (tt, f) ↦ elim (Result-cases drafting) [
      | inr (x, g) ↦ ground arith
      | inl ((token, csrf, d), g) ↦ elim (Result-cases (create d)) [
        | inr (x, h) ↦ ground arith
        | inl ((s, p), h) ↦ (
          (token, csrf, d),
          g,
          (
            validate_stored_session-IsStored mail made.session made.principal d (ground arith),
            ground arith,
            ground arith,
          ),
          ground arith,
          f,
        )
      ]
    ]
  ]

  -- A sign-in that succeeds, from any store: the identity is valid, the draft was made, and the new
  -- session is live, belongs to a signed-in principal, has the hashes and the times of the draft and
  -- replaces no other; the secrets of the draft are handed out.
  pub complete_sign_in-IsIssued :
      (identity : VerifiedIdentity) {made : IssuedSession}
      → complete_sign_in mail c service token_random csrf_random clock identity ≡ ok made
      → (drafted : Text × Text × SessionDraft) × (drafting ≡ ok drafted)
        × IsIssued mail drafted made
        × (is_empty made.session.rotated_from ≡ true)
        × (validate_identity mail identity ≡ ok tt)
  unfolding complete_sign_in
  complete_sign_in-IsIssued identity e =
      made_from identity (service.store.create_session identity) e

  -- The same of a sign-in that consumes an invitation.
  complete_sign_in_with_invitation-IsIssued :
      (identity : VerifiedIdentity) (invite_token : Text) {made : IssuedSession}
      → complete_sign_in_with_invitation mail c service token_random csrf_random clock identity
          invite_token
        ≡ ok made
      → (drafted : Text × Text × SessionDraft) × (drafting ≡ ok drafted)
        × IsIssued mail drafted made
        × (is_empty made.session.rotated_from ≡ true)
        × (validate_identity mail identity ≡ ok tt)
  unfolding complete_sign_in_with_invitation
  complete_sign_in_with_invitation-IsIssued identity invite_token e =
      made_from identity (λ d. service.store.create_invited identity d invite_token) e
