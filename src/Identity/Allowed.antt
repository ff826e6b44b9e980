-- ===== src/Identity/Allowed.antt =====
-- What a principal may do: a role may do what its rank reaches.
use go_book.Base.{arith, refl, true, ℕ, ◌↔◌, ◌≡◌, ◌≤◌}
use go_book.Base.Result.{Result-cases, ok}
use go_book.Base.Text.{text_eq_iff}
use go_book.Events.Envelope.{is_zero}
use go_book.Identity.Authorize.{
  Permission, allowed, authorize, confirm_result, make_financial_correction, manage_roles,
  other_permission, place_wager, submit_result, use_member_area,
}
use go_book.Identity.Types.{
  Mail, Principal, Role, other_role, role_admin, role_member, role_owner, user_active,
  validate_membership, validate_principal, validate_user,
}

abbrev rank_of : Role → ℕ
rank_of role_member = 1
rank_of role_admin = 2
rank_of role_owner = 3
rank_of (other_role _) = 0

-- The rank that a permission needs; no role has that of an unknown one.
abbrev rank_needed : Permission → ℕ
rank_needed use_member_area = 1
rank_needed submit_result = 1
rank_needed confirm_result = 1
rank_needed place_wager = 1
rank_needed make_financial_correction = 3
rank_needed manage_roles = 3
rank_needed (other_permission _) = 4
rank_needed _ = 2

-- A principal that is signed in: an active user with a membership of his own that is not revoked.
pub record IsSignedIn (mail : Mail) (p : Principal) : Type 0 where
  pub valid_user : validate_user mail p.user ≡ ok tt
  pub valid_membership : validate_membership p.membership ≡ ok tt
  pub own_membership : p.membership.user_id ≡ p.user.id
  pub user_is_active : p.user.status ≡ user_active
  pub not_revoked : is_zero p.membership.revoked_at ≡ true

pub validate_principal_iff :
    (mail : Mail) (p : Principal) → (validate_principal mail p ≡ ok tt) ↔ IsSignedIn mail p
unfolding validate_principal
validate_principal_iff mail p =
    let own = text_eq_iff p.membership.user_id p.user.id in
    (
      λ e. record {
        valid_user = ground arith;
        valid_membership = ground arith;
        own_membership = ground arith;
        user_is_active = ground arith;
        not_revoked = ground arith;
      },
      λ h.
          rw
            (
              h.valid_user,
              h.valid_membership,
              own.1 h.own_membership,
              h.user_is_active,
              h.not_revoked,
            )
            refl,
    )

allowed_iff : (r : Role) (q : Permission) → (allowed r q ≡ true) ↔ (rank_needed q ≤ rank_of r)
allowed_iff role_member q = ground arith
allowed_iff role_admin q = ground arith
allowed_iff role_owner q = ground arith
allowed_iff (other_role x) q = ground arith

-- A permission is granted exactly to a principal that is signed in and whose role has the rank that
-- the permission needs: members play and bet, administrators also manage, and the owner alone corrects
-- money and changes roles; an unknown permission is granted to nobody.
pub authorize_iff :
    (mail : Mail) (p : Principal) (q : Permission)
    → (authorize mail p q ≡ ok tt)
      ↔ (IsSignedIn mail p × (rank_needed q ≤ rank_of p.membership.role))
unfolding authorize
authorize_iff mail p q =
    let signed = validate_principal_iff mail p in
    let may = allowed_iff p.membership.role q in
    ground (arith, Result-cases (validate_principal mail p))
