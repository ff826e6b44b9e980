-- ===== src/Identity/Authorize.antt =====
-- internal/identity/authorization.go
use go_book.Base.{Bool, false, true, ◌||◌}
use go_book.Base.Result.{Result, err, ok, require, ◌>>◌}
use go_book.Base.Text.{Text}
use go_book.Identity.Types.{
  Error, Mail, Principal, Role, other_role, role_admin, role_member, role_owner, unauthenticated,
  unauthorized, validate_principal,
}

pub data Permission : Type 0 where
  use_member_area submit_result confirm_result place_wager : Permission
  manage_results manage_markets settle_manual_market : Permission
  manage_media issue_invitation manage_members : Permission
  make_financial_correction manage_roles : Permission
  other_permission : Text → Permission

abbrev is_member_permission : Permission → Bool
is_member_permission use_member_area = true
is_member_permission submit_result = true
is_member_permission confirm_result = true
is_member_permission place_wager = true
is_member_permission _ = false

abbrev is_admin_permission : Permission → Bool
is_admin_permission manage_results = true
is_admin_permission manage_markets = true
is_admin_permission settle_manual_market = true
is_admin_permission manage_media = true
is_admin_permission issue_invitation = true
is_admin_permission manage_members = true
is_admin_permission _ = false

abbrev is_owner_permission : Permission → Bool
is_owner_permission make_financial_correction = true
is_owner_permission manage_roles = true
is_owner_permission _ = false

abbrev pub allowed : Role → Permission → Bool
allowed role_member p = is_member_permission p
allowed role_admin p = is_member_permission p || is_admin_permission p
allowed role_owner p = is_member_permission p || is_admin_permission p || is_owner_permission p
allowed (other_role _) p = false

-- Every failure of `Principal.Validate` reads as a missing authentication.
abbrev as_unauthenticated : Result Error (Unit {0}) → Result Error (Unit {0})
as_unauthenticated (err _) = err unauthenticated
as_unauthenticated (ok v) = ok v

-- `Authorize`
unfoldable pub authorize : Mail → Principal → Permission → Result Error (Unit {0})
authorize mail p permission = do
  as_unauthenticated (validate_principal mail p)
  require (allowed p.membership.role permission) unauthorized
