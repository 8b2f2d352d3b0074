-- ===== src/Tests/Portal.antt =====
-- The theorems on accounts, secrets and workspaces, at a concrete site.
use gsactions_mcp.Admin.{
  AdminUpdateUserInput, api_admin_update_user, checkout_completed, api_stripe_webhook,
}
use gsactions_mcp.Admin.Laws.{api_admin_update_user-Kept}
use gsactions_mcp.Admin.Partial.{api_admin_update_user_partial}
use gsactions_mcp.Admin.Payments.{api_stripe_webhook_again}
use gsactions_mcp.Admin.Rows.{user_row}
use gsactions_mcp.Auth.{
  query_get_auth_info_by_email, query_create_web_session, update_user, query_update_user_api_key,
  session_text, login_user, rotate_api_key, AuthInput, begun_user, session_begun, logged_in,
  api_login, api_logout, api_rotate_api_key,
}
use gsactions_mcp.Auth.Laws.{
  api_logout-echo_session_middleware, api_rotate_api_key-query_get_user_by_api_key,
}
use gsactions_mcp.Auth.Signup.{api_login-echo_session_middleware}
use gsactions_mcp.Common.{
  ◌==◌, code, String, ◌<>◌, ◌≡◌, refl, sym, ◌⊎◌, true, false, none, some, [], ◌∷◌, map, arith,
  to_chars,
}
use gsactions_mcp.Common.Int.{pos, ◌+ℤ◌}
use gsactions_mcp.Crypto.{Gcm, encrypt}
use gsactions_mcp.Middleware.{
  User, HttpRequest, empty_context, goes_on, refused, find_user, session_user,
  query_get_user_by_session_id, query_get_user_by_api_key, is_api, with_user,
  echo_session_middleware,
}
use gsactions_mcp.Rest.{must_parse_uuid}
use gsactions_mcp.Secrets.{
  put_secret, query_upsert_user_secret, is_secret_name, UpsertSecretInput, api_upsert_secret,
}
use gsactions_mcp.Secrets.Laws.{value_in, api_upsert_secret-secret_value}
use gsactions_mcp.Site.{Site, Services, audit}
use gsactions_mcp.Template.{strip_prefix, word_char}
use gsactions_mcp.Tests.{example_id, new_id}
use gsactions_mcp.Tests.Admitting.{admin_user, accounts_now}
use gsactions_mcp.Uuid.{
  uuid_eq, hex_char, hex_value, hex_encode, hex_decode, strip_dashes, format_chars, format_uuid,
  parse_uuid,
}
use gsactions_mcp.Uuid.RoundTrip.{IsUuid}
use gsactions_mcp.Workspaces.{handle_upsert_workspace_env_var, handle_delete_workspace_env_var}
use gsactions_mcp.Workspaces.Laws.{IsGuarded, workspace_handlers-IsGuarded}

-- A cipher that hides nothing, behind nonces of two bytes.
abbrev pub plain_gcm : Gcm
plain_gcm = record {
  valid_key = λ k. true;
  nonce_size = 2;
  seal = λ k n p. p;
  open_sealed = λ k n c. some c;
}

abbrev pub services_up : Services
services_up = record {
  fails = λ q. false;
  now = pos 5;
  trim_space = λ s. s;
  hash_password = λ p. some ("#" <> p);
  password_matches = λ h p. h == ("#" <> p);
  random_key = some (171 ∷ 205 ∷ []);
  random_nonce = some (1 ∷ 2 ∷ []);
  new_user_id = "u1";
  new_session_id = new_id;
  new_workspace_id = new_id;
  gcm = plain_gcm;
  encryption_key = [];
  to_bytes = λ s. map code (to_chars s);
  of_bytes = λ b. "v";
}

abbrev ann : User
ann = record {
  id = "ann";
  email = "ann@example.com";
  password_hash = "#pw";
  api_key = "k2";
  role = "user";
  tier = "free";
}

abbrev pub site_now : Site
site_now = record {
  accounts = record { users = admin_user ∷ ann ∷ []; sessions = accounts_now.sessions };
  secrets = [];
  workspaces = record { id = example_id; name = "w"; owner_id = "ann" } ∷ [];
  members = [];
  env_vars = [];
  audits = [];
}

abbrev pub new_cookie : String
new_cookie = "09010203-0405-0607-0809-0a0b0c0d0e07"

abbrev pub with_cookie : String → HttpRequest
with_cookie cookie = record { path = "/api/v1/tasks"; session_id = some cookie; api_key = "" }

abbrev credentials : AuthInput
credentials = record { email = "ann@example.com"; password = "pw" }

api_stripe_webhook_again_example :
    api_stripe_webhook services_up
      (checkout_completed "ann")
      (api_stripe_webhook services_up (checkout_completed "ann") site_now).0
    ≡ api_stripe_webhook services_up (checkout_completed "ann") site_now
api_stripe_webhook_again_example =
    api_stripe_webhook_again services_up (checkout_completed "ann") site_now

api_logout-echo_session_middleware_example :
    echo_session_middleware
      (api_logout services_up
        (some admin_user)
        (some "00010203-0405-0607-0809-0a0b0c0d0e07")
        site_now).0.accounts
      (pos 6)
      (with_cookie "00010203-0405-0607-0809-0a0b0c0d0e07")
      empty_context
    ≡ refused 401
unfolding is_api strip_prefix
api_logout-echo_session_middleware_example =
    api_logout-echo_session_middleware services_up (some admin_user)
      "00010203-0405-0607-0809-0a0b0c0d0e07" site_now (pos 6)
      (with_cookie "00010203-0405-0607-0809-0a0b0c0d0e07") empty_context refl refl

api_admin_update_user-Kept_example :
    ((user_row "ann"
          (api_admin_update_user services_up
            (some admin_user)
            (some (record { user_id = "root"; role = "user"; tier = "plus" }))
            site_now).0
        ≡ user_row "ann" site_now)
      ⊎ (◌≡◌ {A = String} "ann" "root"))
    × ((u : User) × (user_row "root"
            (api_admin_update_user services_up
              (some admin_user)
              (some (record { user_id = "root"; role = "user"; tier = "plus" }))
              site_now).0
          ≡ some u)
        × (u.role ≡ "admin"))
unfolding find_user
api_admin_update_user-Kept_example =
    api_admin_update_user-Kept services_up admin_user
      (some (record { user_id = "root"; role = "user"; tier = "plus" })) "ann" "root" site_now refl
      (admin_user, refl, refl)

abbrev misspelt : AdminUpdateUserInput
misspelt = record { user_id = "ann"; role = "staff"; tier = "gold" }

api_admin_update_user_partial_example :
    ((api_admin_update_user services_up (some admin_user) (some misspelt) site_now).1 ≡ 400)
    × (user_row "ann"
          (api_admin_update_user services_up (some admin_user) (some misspelt) site_now).0
        ≡ some (record ann { role = "staff" }))
    × ((api_admin_update_user services_up (some admin_user) (some misspelt) site_now).0.audits ≡ [])
unfolding find_user
api_admin_update_user_partial_example =
    api_admin_update_user_partial services_up admin_user ann misspelt site_now (λ q. refl) refl
      (λ h. cc) (λ h. cc) (λ h. cc) refl (λ h. cc) refl

pub new_id-IsUuid : IsUuid new_id
new_id-IsUuid = (refl, omega arith)

logged_in_now :
    ((api_login services_up (some credentials) site_now).1.statuses ≡ 200 ∷ [])
    × ((api_login services_up (some credentials) site_now).1.session_cookie ≡ some new_cookie)
unfolding api_login logged_in login_user query_get_auth_info_by_email find_user session_text
    query_create_web_session session_begun must_parse_uuid begun_user query_get_user_by_session_id
    session_user format_uuid format_chars hex_encode hex_char uuid_eq parse_uuid hex_decode
    hex_value strip_dashes audit ◌+ℤ◌
logged_in_now = (refl, refl)

api_login-echo_session_middleware_example :
    (info u : User) × (find_user (λ v. v.email == "ann@example.com") site_now.accounts.users
      ≡ some info)
    × (services_up.password_matches info.password_hash "pw" ≡ true)
    × (u.id ≡ info.id)
    × (echo_session_middleware
          (api_login services_up (some credentials) site_now).0.accounts
          (pos 7)
          (with_cookie new_cookie)
          empty_context
        ≡ goes_on (with_user empty_context u))
unfolding ◌+ℤ◌
api_login-echo_session_middleware_example =
    api_login-echo_session_middleware services_up credentials site_now (pos 7)
      (with_cookie new_cookie) empty_context new_id-IsUuid logged_in_now.0 (sym logged_in_now.1)
      refl

rotated_now :
    ((api_rotate_api_key services_up (some ann) site_now).1.statuses ≡ 200 ∷ [])
    × (query_get_user_by_api_key
          (api_rotate_api_key services_up (some ann) site_now).0.accounts
          "abcd"
        ≡ some (record ann { api_key = "abcd" }))
unfolding api_rotate_api_key rotate_api_key query_update_user_api_key query_get_user_by_api_key
    update_user find_user hex_encode hex_char audit
rotated_now = (refl, refl)

api_rotate_api_key-query_get_user_by_api_key_example :
    (api_rotate_api_key services_up (some ann) site_now).1.api_key ≡ some "abcd"
api_rotate_api_key-query_get_user_by_api_key_example =
    api_rotate_api_key-query_get_user_by_api_key services_up ann site_now "abcd"
      {u = record ann { api_key = "abcd" }} rotated_now.0 rotated_now.1 refl

abbrev token_input : UpsertSecretInput
token_input = record { name = "TOKEN"; value = "v" }

stored_now : (api_upsert_secret services_up (some ann) (some token_input) site_now).1 ≡ 200
unfolding api_upsert_secret is_secret_name word_char encrypt query_upsert_user_secret put_secret
    audit
stored_now = refl

api_upsert_secret-secret_value_example :
    (value_in services_up
        (λ id. none)
        "ann"
        (api_upsert_secret services_up (some ann) (some token_input) site_now).0
        "TOKEN"
      ≡ to_chars "v")
    × (value_in services_up
          (λ id. none)
          "root"
          (api_upsert_secret services_up (some ann) (some token_input) site_now).0
          "TOKEN"
        ≡ value_in services_up (λ id. none) "root" site_now "TOKEN")
api_upsert_secret-secret_value_example =
    api_upsert_secret-secret_value services_up (λ id. none) ann token_input site_now (1 ∷ 2 ∷ [])
      "root" "TOKEN" (λ key nonce plain valid. refl) refl refl refl stored_now refl

workspace_handlers-IsGuarded_example :
    IsGuarded example_id new_id "bob" site_now
      (handle_upsert_workspace_env_var services_up "bob" "00010203-0405-0607-0809-0a0b0c0d0e07"
        (some (record { name = "A"; value = "1" }))
        site_now).0
    × IsGuarded example_id new_id "bob" site_now
        (handle_delete_workspace_env_var services_up "bob" "00010203-0405-0607-0809-0a0b0c0d0e07"
          "A" site_now).0
workspace_handlers-IsGuarded_example =
    workspace_handlers-IsGuarded services_up "bob" "00010203-0405-0607-0809-0a0b0c0d0e07" site_now
      example_id new_id (unfold parse_uuid strip_dashes hex_decode hex_value in refl)
      (unfold uuid_eq in refl) (some (record { name = "A"; value = "1" })) "A"
