-- ===== src/Admin.antt =====
-- apiAdminUpdateUserHandler of cmd/server/api_handlers.go and apiStripeWebhook of
-- cmd/server/billing_handlers.go, which change the role and the tier of users. A handler gives the new
-- state and the status that it writes.
pub mod Rows
pub mod Payments
pub mod Laws
pub mod Partial
use gsactions_mcp.Auth.{with_users, update_user}
use gsactions_mcp.Common.{
  ◌==◌, ℕ, String, ◌&&◌, not, Option, none, some, List, [], ◌∷◌, if◌then◌else◌, any,
}
use gsactions_mcp.Middleware.{User, find_user}
use gsactions_mcp.Site.{Site, get_user, update_user_role, update_user_tier, Services, audit}

pub record AdminUpdateUserInput : Type 0 where
  pub user_id : String
  pub role : String
  pub tier : String

abbrev pub roles : List String
roles = "user" ∷ "staff" ∷ "admin" ∷ []

abbrev pub tiers : List String
tiers = "free" ∷ "plus" ∷ "pro" ∷ []

unfoldable pub query_get_user : Services → String → Site → Option User
query_get_user e id s =
    if e.fails get_user then none else find_user (λ u. u.id == id) s.accounts.users

-- UpdateUserRole and UpdateUserTier; `none` is an error.
unfoldable pub query_update_user_role : Services → String → String → Site → Option Site
query_update_user_role e role id s =
    if e.fails update_user_role
    then none
    else some (with_users (update_user id (λ u. record u { role = role }) s.accounts.users) s)

unfoldable pub query_update_user_tier : Services → String → String → Site → Option Site
query_update_user_tier e tier id s =
    if e.fails update_user_tier
    then none
    else some (with_users (update_user id (λ u. record u { tier = tier }) s.accounts.users) s)

-- The state after a statement, and the status of its error.
unfoldable pub or_500 : Site → Option Site → Site × Option ℕ
or_500 s none = (s, some 500)
or_500 s (some s') = (s', none)

-- The part that changes the role; a status ends the handler.
unfoldable pub role_step : Services → User → User → AdminUpdateUserInput → Site → Site × Option ℕ
role_step e admin target input s =
    if input.role == ""
    then (s, none)
    else if not (any (λ r. input.role == r) roles)
    then (s, some 400)
    else if target.id == admin.id && not (input.role == "admin")
    then (s, some 403)
    else or_500 s (query_update_user_role e input.role input.user_id s)

-- The part that changes the tier.
unfoldable pub tier_step : Services → AdminUpdateUserInput → Site → Site × Option ℕ
tier_step e input s =
    if input.tier == ""
    then (s, none)
    else if not (any (λ t. input.tier == t) tiers)
    then (s, some 400)
    else or_500 s (query_update_user_tier e input.tier input.user_id s)

unfoldable pub update_end : User → AdminUpdateUserInput → Site × Option ℕ → Site × ℕ
update_end admin input (s, some status) = (s, status)
update_end admin input (s, none) = (audit admin.id "admin.update_user" "user" input.user_id s, 200)

unfoldable pub update_tier : Services → User → AdminUpdateUserInput → Site × Option ℕ → Site × ℕ
unfolding update_end
update_tier e admin input (s, some status) = (s, status)
update_tier e admin input (s, none) = update_end admin input (tier_step e input s)

-- apiAdminUpdateUserHandler, for the user of the session
unfoldable pub api_admin_update_user :
    Services → Option User → Option AdminUpdateUserInput → Site → Site × ℕ
api_admin_update_user e admin none s = (s, 400)
api_admin_update_user e admin (some input) s =
    if input.user_id == "" then (s, 400) else elim (query_get_user e input.user_id s) [
      | none ↦ (s, 404)
      | some target ↦ elim admin [
        | none ↦ (s, 401)
        | some a ↦ update_tier e a input (role_step e a target input s)
      ]
    ]

-- What webhook.ConstructEvent and json.Unmarshal give of a request to apiStripeWebhook.
pub data StripeEvent : Type 0 where
  unreadable bad_signature : StripeEvent
  -- an event of another type
  other_event : StripeEvent
  bad_session : StripeEvent
  -- the end of a checkout, with the ClientReferenceID of its session
  checkout_completed : String → StripeEvent

unfoldable pub upgrade : Services → String → User → Site → Site × ℕ
upgrade e id user s =
    if user.tier == "pro" then (s, 200) else elim (query_update_user_tier e "pro" id s) [
      | none ↦ (s, 500)
      | some s' ↦ (audit id "billing.upgrade" "user" id s', 200)
    ]

-- apiStripeWebhook
unfoldable pub api_stripe_webhook : Services → StripeEvent → Site → Site × ℕ
unfolding upgrade
api_stripe_webhook e unreadable s = (s, 400)
api_stripe_webhook e bad_signature s = (s, 400)
api_stripe_webhook e other_event s = (s, 200)
api_stripe_webhook e bad_session s = (s, 400)
api_stripe_webhook e (checkout_completed id) s =
    if id == ""
    then (s, 200)
    else elim (query_get_user e id s) [ none ↦ (s, 500) | some user ↦ upgrade e id user s ]
