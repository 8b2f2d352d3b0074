-- ===== src/Admin/Partial.antt =====
-- The request of an admin that is answered with 400 and is done in part.
use gsactions_mcp.Admin.{
  AdminUpdateUserInput, roles, tiers, query_get_user, query_update_user_role, or_500, role_step,
  tier_step, update_end, update_tier, api_admin_update_user,
}
use gsactions_mcp.Admin.Rows.{user_row, find-update_user, user_row-id}
use gsactions_mcp.Auth.{with_users, update_user}
use gsactions_mcp.Common.{
  ◌==◌, eq_iff, ℕ, String, ◌≡◌, refl, ap, ◌∙◌, ◌≢◌, true, false, some, arith, any,
}
use gsactions_mcp.Middleware.{User}
use gsactions_mcp.Site.{Site, Statement, get_user, update_user_role, Services}

not_eq : (a b : String) → a ≢ b → (a == b) ≡ false
not_eq a b h = ground (arith, eq_iff a b)

partial_run :
    (e : Services) (admin target : User) (input : AdminUpdateUserInput) (s : Site)
    → ((q : Statement) → e.fails q ≡ false)
    → user_row input.user_id s ≡ some target
    → (input.user_id == "") ≡ false
    → (target.id == admin.id) ≡ false
    → (input.role == "") ≡ false
    → any (λ r. input.role == r) roles ≡ true
    → (input.tier == "") ≡ false
    → any (λ t. input.tier == t) tiers ≡ false
    → api_admin_update_user e (some admin) (some input) s ≡ (
      with_users
          (update_user input.user_id (λ u. record u { role = input.role }) s.accounts.users)
          s,
      400,
    )
unfolding api_admin_update_user query_get_user role_step query_update_user_role or_500 update_tier
    update_end tier_step
partial_run e admin target input s up found named other role_given role_known tier_given
      tier_unknown =
    rw (named, up get_user, found)
      (rw (other, role_given, role_known, up update_user_role) (rw (tier_given, tier_unknown) refl))

-- A request with a role that may be set and a tier that does not exist is answered with 400, but the
-- role has been set, and the audit log has no entry for it. This is for a user who is there and is not
-- the admin, and a database that does not fail.
pub api_admin_update_user_partial :
    (e : Services) (admin target : User) (input : AdminUpdateUserInput) (s : Site)
    → ((q : Statement) → e.fails q ≡ false)
    → user_row input.user_id s ≡ some target
    → input.user_id ≢ ""
    → target.id ≢ admin.id
    → input.role ≢ ""
    → any (λ r. input.role == r) roles ≡ true
    → input.tier ≢ ""
    → any (λ t. input.tier == t) tiers ≡ false
    → ((api_admin_update_user e (some admin) (some input) s).1 ≡ 400)
      × (user_row input.user_id (api_admin_update_user e (some admin) (some input) s).0
          ≡ some (record target { role = input.role }))
      × ((api_admin_update_user e (some admin) (some input) s).0.audits ≡ s.audits)
api_admin_update_user_partial e admin target input s up found named other role_given role_known
      tier_given tier_unknown =
    let run =
      partial_run e admin target input s up found (not_eq input.user_id "" named)
        (not_eq target.id admin.id other) (not_eq input.role "" role_given) role_known
        (not_eq input.tier "" tier_given) tier_unknown in
    (
      ap (λ (o : Site × ℕ). o.1) run,
      ap (λ (o : Site × ℕ). user_row input.user_id o.0) run
          ∙ find-update_user input.user_id input.user_id (λ u. record u { role = input.role })
              s.accounts.users (λ u. refl)
          ∙ ground (
            arith,
            found,
            user_row-id input.user_id s.accounts.users {u = target} found,
            eq_iff target.id input.user_id,
          ),
      ap (λ (o : Site × ℕ). o.0.audits) run,
    )
