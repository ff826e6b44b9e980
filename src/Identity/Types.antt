-- ===== src/Identity/Types.antt =====
-- internal/identity/types.go and errors.go, users, memberships and principals. Unicode's case tables and
-- the grammar of net/mail are parameters of the code that uses them.
use go_book.Base.{
  Bool, Option, [], false, leb, length, ltb, none, not, some, true, ◌&&◌, ◌==◌, ◌||◌, ◌∷◌,
}
use go_book.Base.Result.{Result, err, fail_if, ok, require, ◌>>=◌, ◌>>◌}
use go_book.Base.Text.{Text, is_blank, is_digit, is_empty, is_lower, text_eq, trim_space}
use go_book.Events.Envelope.{Time, is_zero, valid_uuid}

pub data Error : Type 0 where
  invalid_identity invalid_principal invalid_session sign_in_not_allowed : Error
  unauthenticated unauthorized session_expired session_revoked repository_contract : Error
  invalid_secret invalid_csrf secret_generation : Error

-- `ID.Valid` is the test of the package events.
abbrev pub is_uuid : Text → Bool
is_uuid id = valid_uuid id

-- What `strings.ToLower` and `mail.ParseAddress` return; an address is its name and itself.
pub record Mail : Type 0 where
  pub to_lower : Text → Text
  pub parse_address : Text → Option (Text × Text)

unfoldable pub normalize_email : Mail → Text → Result Error Text
normalize_email mail value =
    let lower = mail.to_lower (trim_space value) in
    fail_if (is_empty lower || ltb 320 (length lower)) invalid_identity
    >> elim (mail.parse_address lower) [
      | none ↦ err invalid_identity
      | some (name, address) ↦
          fail_if (not (is_empty name) || not (text_eq address lower)) invalid_identity >> ok lower
    ]

-- Is an email in the form that `NormalizeEmail` gives it?
abbrev is_normalized : Mail → Text → Bool
is_normalized mail email = elim (normalize_email mail email) [
  | err _ ↦ false
  | ok e ↦ text_eq e email
]

-- `^[a-z][a-z0-9_-]{1,31}$`, its first character and the others.
provider_rest : Text → Bool
provider_rest [] = true
provider_rest (c ∷ s) = (is_lower c || is_digit c || c == b'_' || c == b'-') && provider_rest s

unfoldable pub matches_provider : Text → Bool
unfolding provider_rest
matches_provider [] = false
matches_provider (c ∷ s) = is_lower c && leb 1 (length s) && leb (length s) 31 && provider_rest s

parse_provider : Mail → Text → Result Error Text
unfolding matches_provider
parse_provider mail value =
    let lower = mail.to_lower (trim_space value) in
    require (matches_provider lower) invalid_identity >> ok lower

-- `Provider.Validate`
unfoldable pub validate_provider : Mail → Text → Result Error (Unit {0})
unfolding parse_provider
validate_provider mail p = do
  parsed ← parse_provider mail p
  require (text_eq parsed p) invalid_identity

pub record VerifiedIdentity : Type 0 where
  pub provider : Text
  pub subject : Text
  pub email : Text
  pub email_verified : Bool
  pub display_name : Text

-- `IdentityKey.Validate`
unfoldable pub validate_key : Mail → Text → Text → Result Error (Unit {0})
validate_key mail provider subject = do
  validate_provider mail provider
  fail_if (is_blank subject || ltb 255 (length subject)) invalid_identity

-- A provider's identity as it is kept.
record AuthIdentity : Type 0 where
  id : Text
  user_id : Text
  provider : Text
  subject : Text
  email : Text
  email_verified : Bool
  created_at : Time
  last_authenticated_at : Time

-- `AuthIdentity.Validate`
validate_auth_identity : Mail → AuthIdentity → Result Error (Unit {0})
validate_auth_identity mail i = do
  fail_if (not (is_uuid i.id) || not (is_uuid i.user_id) || is_zero i.created_at) invalid_identity
  validate_key mail i.provider i.subject
  fail_if (not (is_empty i.email) && not (is_normalized mail i.email)) invalid_identity
  fail_if (i.email_verified && is_empty i.email) invalid_identity
  fail_if (not (is_zero i.last_authenticated_at) && ltb i.last_authenticated_at i.created_at)
      invalid_identity

-- `VerifiedIdentity.Validate`
unfoldable pub validate_identity : Mail → VerifiedIdentity → Result Error (Unit {0})
validate_identity mail i = do
  validate_key mail i.provider i.subject
  fail_if (not (is_normalized mail i.email) || not i.email_verified) invalid_identity
  fail_if
      (is_empty (trim_space i.display_name)
        || ltb 120 (length (trim_space i.display_name))
        || not (text_eq (trim_space i.display_name) i.display_name))
      invalid_identity

pub data UserStatus : Type 0 where
  user_invited user_active user_suspended user_disabled : UserStatus
  other_status : Text → UserStatus

unfoldable pub validate_status : UserStatus → Result Error (Unit {0})
validate_status (other_status _) = err invalid_principal
validate_status _ = ok tt

abbrev is_active_status : UserStatus → Bool
is_active_status user_active = true
is_active_status _ = false

pub data Role : Type 0 where
  role_member role_admin role_owner : Role
  other_role : Text → Role

unfoldable pub validate_role : Role → Result Error (Unit {0})
validate_role (other_role _) = err invalid_principal
validate_role _ = ok tt

pub record User : Type 0 where
  pub id : Text
  pub display_name : Text
  pub email : Text
  pub status : UserStatus

-- `User.Validate`
unfoldable pub validate_user : Mail → User → Result Error (Unit {0})
validate_user mail u = do
  require (is_uuid u.id) invalid_principal
  fail_if
      (is_empty (trim_space u.display_name)
        || not (text_eq (trim_space u.display_name) u.display_name)
        || ltb 120 (length (trim_space u.display_name)))
      invalid_principal
  fail_if (not (is_empty u.email) && not (is_normalized mail u.email)) invalid_principal
  validate_status u.status

pub record Membership : Type 0 where
  pub id : Text
  pub user_id : Text
  pub role : Role
  pub granted_at : Time
  pub revoked_at : Time

-- `Membership.Validate`
unfoldable pub validate_membership : Membership → Result Error (Unit {0})
validate_membership m = do
  fail_if (not (is_uuid m.id) || not (is_uuid m.user_id) || is_zero m.granted_at) invalid_principal
  validate_role m.role
  fail_if (not (is_zero m.revoked_at) && ltb m.revoked_at m.granted_at) invalid_principal

pub record Principal : Type 0 where
  pub user : User
  pub membership : Membership

-- `Principal.Validate`
unfoldable pub validate_principal : Mail → Principal → Result Error (Unit {0})
validate_principal mail p = do
  validate_user mail p.user
  validate_membership p.membership
  require (text_eq p.membership.user_id p.user.id) invalid_principal
  fail_if (not (is_active_status p.user.status) || not (is_zero p.membership.revoked_at))
      sign_in_not_allowed
