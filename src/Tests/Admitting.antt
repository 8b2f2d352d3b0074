-- ===== src/Tests/Admitting.antt =====
-- The theorems on the middleware, at concrete requests.
use gsactions_mcp.Common.{◌==◌, String, ◌≡◌, refl, Bool, true, ◌||◌, some, [], ◌∷◌, any}
use gsactions_mcp.Common.Int.{pos}
use gsactions_mcp.Middleware.{
  User, Accounts, HttpRequest, empty_context, goes_on, find_user, session_user,
  query_get_user_by_session_id, query_get_user_by_api_key, with_user, cookie_user,
  echo_session_middleware, echo_require_role, get_user_id, echo_rate_limit_middleware,
  net_http_user, net_http_auth_middleware, role_group,
}
use gsactions_mcp.Middleware.Laws.{SignedIn, role_group-admits}
use gsactions_mcp.Tests.{example_id}
use gsactions_mcp.Uuid.{uuid_eq, hex_value, hex_decode, strip_dashes, parse_uuid}

abbrev pub admin_user : User
admin_user = record {
  id = "root";
  email = "root@example.com";
  password_hash = "#secret";
  api_key = "k";
  role = "admin";
  tier = "pro";
}

abbrev pub accounts_now : Accounts
accounts_now = record {
  users = admin_user ∷ [];
  sessions = record { id = example_id; user_id = "root"; expires_at = pos 9 } ∷ [];
}

abbrev signed_in : HttpRequest
signed_in = record {
  path = "/api/v1/admin/users";
  session_id = some "00010203-0405-0607-0809-0a0b0c0d0e07";
  api_key = "";
}

abbrev everyone : String → Bool
everyone user = true

admitted :
    role_group accounts_now everyone (pos 5) ("admin" ∷ []) signed_in
    ≡ goes_on (with_user empty_context admin_user)
unfolding role_group echo_session_middleware echo_rate_limit_middleware echo_require_role
    get_user_id cookie_user query_get_user_by_session_id session_user find_user parse_uuid
    strip_dashes hex_decode hex_value uuid_eq
admitted = refl

role_group-admits_example :
    (u : User) × SignedIn accounts_now (pos 5) signed_in u
    × (any (λ a. a == u.role) ("admin" ∷ []) ≡ true)
    × ((u.id == "" || everyone u.id) ≡ true)
    × (with_user empty_context admin_user ≡ with_user empty_context u)
role_group-admits_example =
    role_group-admits accounts_now (pos 5) signed_in everyone ("admin" ∷ []) admitted

abbrev with_key : HttpRequest
with_key = record signed_in { api_key = "k" }

admitted_by_key :
    net_http_auth_middleware accounts_now everyone (pos 5) with_key empty_context
    ≡ goes_on (record empty_context { user_id = some "root"; user_tier = some "pro" })
unfolding net_http_auth_middleware net_http_user query_get_user_by_api_key find_user
admitted_by_key = refl
