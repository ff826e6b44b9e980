-- ===== src/Identity/Examples.antt =====
-- A service over a store of one session, and the theorems at it.
use go_book.Base.{List, [], refl, some, true, ℕ, ◌↔◌, ◌≡◌, ◌≤◌}
use go_book.Base.Int.{pos}
use go_book.Base.Result.{ok}
use go_book.Base.Text.{Text, codes, is_blank, is_space, trim_left, trim_space}
use go_book.Events.Envelope.{valid_uuid}
use go_book.Identity.Active.{IsResumed, resume-IsResumed}
use go_book.Identity.Allowed.{IsSignedIn, authorize_iff}
use go_book.Identity.Authorize.{authorize, manage_roles}
use go_book.Identity.Issued.{IsOpened, issued_opens}
use go_book.Identity.Secrets.{
  Crypto, check_decoded, draft_of, generate_secret, hash_csrf_secret, hash_session_token, new_draft,
  parse_secret,
}
use go_book.Identity.Service.{
  IssuedSession, Service, Store, complete_sign_in, issued, resume, rotate,
}
use go_book.Identity.Session.{
  Session, SessionDraft, active_at, is_zero_digest, validate_active_session, validate_draft,
  validate_session, validate_stored_session,
}
use go_book.Identity.Types.{
  Mail, Principal, VerifiedIdentity, matches_provider, normalize_email, role_owner, user_active,
  validate_identity, validate_key, validate_membership, validate_principal, validate_provider,
  validate_role, validate_status, validate_user,
}

abbrev user_uuid : Text
user_uuid = codes "11111111-1111-4111-8111-111111111111"

abbrev session_uuid : Text
session_uuid = codes "22222222-2222-4222-8222-222222222222"

abbrev old_uuid : Text
old_uuid = codes "33333333-3333-4333-8333-333333333333"

-- Every text is in lower case and an address of its own.
abbrev plain_mail : Mail
plain_mail = record { to_lower = λ s. s; parse_address = λ s. some ([], s) }

-- A code that leaves the bytes as they are, and a hash that leaves the text as it is.
abbrev plain : Crypto
plain = record { decode = λ s. some s; encode = λ b. b; sha256 = λ s. s }

abbrev token_bytes : List ℕ
token_bytes = codes "abcdefghijklmnopqrstuvwxyz012345"

abbrev csrf_bytes : List ℕ
csrf_bytes = codes "543210abcdefghijklmnopqrstuvwxyz"

abbrev owner : Principal
owner = record {
  user = record {
    id = user_uuid;
    display_name = codes "Ann";
    email = codes "ann@example.org";
    status = user_active;
  };
  membership = record {
    id = session_uuid;
    user_id = user_uuid;
    role = role_owner;
    granted_at = 1;
    revoked_at = 0;
  };
}

abbrev draft : SessionDraft
draft = draft_of plain token_bytes csrf_bytes 5000 (pos 4000)

abbrev session : Text → Session
session rotated_from = record {
  id = session_uuid;
  user_id = user_uuid;
  token_hash = draft.token_hash;
  csrf_secret_hash = draft.csrf_secret_hash;
  created_at = 5000;
  last_seen_at = 5000;
  expires_at = 9000;
  revoked_at = 0;
  revoke_reason = [];
  rotated_from = rotated_from;
}

abbrev store : Store
store = record {
  use_session = λ digest now. ok (session [], owner);
  rotate_session = λ digest new now reason. ok (session old_uuid, owner);
  create_session = λ identity new. ok (session [], owner);
  create_invited = λ identity new token. ok (session [], owner);
  revoke_session = λ digest now reason. ok tt;
}

abbrev service : Service
service = record { store = store; lifetime = pos 4000 }

abbrev ann : VerifiedIdentity
ann = record {
  provider = codes "google";
  subject = codes "s1";
  email = codes "ann@example.org";
  email_verified = true;
  display_name = codes "Ann";
}

authorize_iff_example :
    (authorize plain_mail owner manage_roles ≡ ok tt) ↔ (IsSignedIn plain_mail owner × (3 ≤ 3))
authorize_iff_example = authorize_iff plain_mail owner manage_roles

resumed : resume plain_mail plain service token_bytes 7000 ≡ ok (session [], owner)
unfolding resume parse_secret check_decoded validate_active_session active_at validate_session
    is_zero_digest validate_principal validate_user validate_membership validate_role
    validate_status normalize_email is_blank trim_space trim_left is_space valid_uuid
    hash_session_token hash_csrf_secret
resumed = refl

resume-IsResumed_example : IsResumed plain_mail plain token_bytes 7000 (session [], owner)
resume-IsResumed_example = resume-IsResumed plain_mail plain service token_bytes 7000 resumed

rotated :
    rotate plain_mail plain service
      (some token_bytes)
      (some csrf_bytes)
      5123
      token_bytes
      (codes "login")
    ≡ ok (issued (session old_uuid, owner) (token_bytes, csrf_bytes, draft))
unfolding rotate new_draft generate_secret validate_draft parse_secret check_decoded
    validate_stored_session active_at validate_session is_zero_digest validate_principal
    validate_user validate_membership validate_role validate_status normalize_email is_blank
    trim_space trim_left is_space valid_uuid hash_session_token hash_csrf_secret
rotated = refl

abbrev handed_out : IssuedSession
handed_out = issued (session [], owner) (token_bytes, csrf_bytes, draft)

signed_in :
    complete_sign_in plain_mail plain service (some token_bytes) (some csrf_bytes) 5123 ann
    ≡ ok handed_out
unfolding complete_sign_in new_draft generate_secret validate_draft validate_identity validate_key
    validate_provider matches_provider validate_stored_session active_at validate_session
    is_zero_digest validate_principal validate_user validate_membership validate_role
    validate_status normalize_email is_blank trim_space trim_left is_space valid_uuid
    hash_session_token hash_csrf_secret
signed_in = refl

issued_opens_example : IsOpened plain token_bytes csrf_bytes handed_out token_bytes
issued_opens_example =
    issued_opens plain (λ bytes full. refl) plain_mail service ann token_bytes csrf_bytes 5123
      token_bytes refl refl signed_in
