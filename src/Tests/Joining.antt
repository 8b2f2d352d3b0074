-- ===== src/Tests/Joining.antt =====
-- The theorem on new accounts, at a concrete site.
use gsactions_mcp.Auth.{
  query_create_user, query_get_auth_info_by_email, query_create_web_session, register_user,
  session_text, login_user, AuthInput, signed_up, api_signup, begun_user, session_begun, logged_in,
  api_login,
}
use gsactions_mcp.Auth.Joining.{api_login-api_signup}
use gsactions_mcp.Common.{eq_iff, ◌<>◌, ◌≡◌, refl, sym, some, [], ◌∷◌, some-inj}
use gsactions_mcp.Common.Int.{pos, ◌+ℤ◌}
use gsactions_mcp.Middleware.{
  User, empty_context, goes_on, find_user, session_user, query_get_user_by_session_id, with_user,
  echo_session_middleware,
}
use gsactions_mcp.Rest.{must_parse_uuid}
use gsactions_mcp.Site.{audit}
use gsactions_mcp.Tests.Portal.{services_up, site_now, new_cookie, with_cookie, new_id-IsUuid}
use gsactions_mcp.Uuid.{
  uuid_eq, hex_char, hex_value, hex_encode, hex_decode, strip_dashes, format_chars, format_uuid,
  parse_uuid,
}

abbrev newcomer : AuthInput
newcomer = record { email = "new@example.com"; password = "word" }

signed_up_now : (api_signup services_up (some newcomer) site_now).1.statuses ≡ 201 ∷ []
unfolding api_signup signed_up register_user query_create_user audit hex_encode hex_char
signed_up_now = refl

cookie_now :
    (api_login services_up
      (some newcomer)
      (api_signup services_up (some newcomer) site_now).0).1.session_cookie
    ≡ some new_cookie
unfolding api_signup signed_up register_user query_create_user audit hex_encode hex_char api_login
    logged_in login_user query_get_auth_info_by_email find_user session_text
    query_create_web_session session_begun must_parse_uuid begun_user query_get_user_by_session_id
    session_user format_uuid format_chars uuid_eq parse_uuid hex_decode hex_value strip_dashes ◌+ℤ◌
cookie_now = refl

api_login-api_signup_example :
    ((api_login services_up
        (some newcomer)
        (api_signup services_up (some newcomer) site_now).0).1.statuses
      ≡ 200 ∷ [])
    × ((u : User) × (u.id ≡ "u1")
        × (echo_session_middleware
              (api_login services_up
                (some newcomer)
                (api_signup services_up (some newcomer) site_now).0).0.accounts
              (pos 7)
              (with_cookie new_cookie)
              empty_context
            ≡ goes_on (with_user empty_context u)))
unfolding find_user ◌+ℤ◌
api_login-api_signup_example =
    api_login-api_signup services_up services_up newcomer site_now empty_context (pos 7)
      (with_cookie new_cookie) (λ p h made. (eq_iff h ("#" <> p)).1 (sym (some-inj made)))
      (λ q. refl) refl new_id-IsUuid refl signed_up_now (sym cookie_now) refl
