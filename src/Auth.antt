-- ===== src/Auth.antt =====
-- cmd/server/auth.go, and the handlers of cmd/server/api_handlers.go that sign users up, in and out
-- and that replace their keys. A handler gives the new state and its answer.
pub mod Laws
pub mod Signup
pub mod Joining
use gsactions_mcp.Common.{
  ◌==◌, ℕ, String, Bool, ◌&&◌, ◌||◌, not, Option, none, some, List, [], ◌∷◌, ◌++◌, if◌then◌else◌,
  any, from_chars,
}
use gsactions_mcp.Common.Int.{ℤ, pos, ◌+ℤ◌}
use gsactions_mcp.Middleware.{User, WebSession, find_user, query_get_user_by_session_id}
use gsactions_mcp.Rest.{must_parse_uuid}
use gsactions_mcp.Site.{
  Site, create_user, get_auth_info_by_email, create_web_session, get_user_by_session,
  delete_web_session, update_user_api_key, Services, audit,
}
use gsactions_mcp.Store.{Time}
use gsactions_mcp.Uuid.{Uuid, uuid_eq, hex_encode, format_uuid, parse_uuid}

-- The status codes that are written, in order, the cookie that is set and the data of the answer.
pub record AccountReply : Type 0 where
  pub statuses : List ℕ
  pub session_cookie : Option String
  pub user : Option User
  pub api_key : Option String

abbrev pub answer : ℕ → AccountReply
answer status = record {
  statuses = status ∷ [];
  session_cookie = none;
  user = none;
  api_key = none;
}

abbrev pub with_users : List User → Site → Site
with_users users s = record s {
  accounts = record { users = users; sessions = s.accounts.sessions };
}

abbrev pub with_sessions : List WebSession → Site → Site
with_sessions sessions s = record s {
  accounts = record { users = s.accounts.users; sessions = sessions };
}

abbrev pub key_taken : String → List User → Bool
key_taken key users = any (λ u. u.api_key == key) users

-- CreateUser: `api_key` is UNIQUE, and the role and the tier have defaults.
unfoldable pub query_create_user : Services → String → String → String → Site → Site × Option User
query_create_user e email hash key s =
    if e.fails create_user || key_taken key s.accounts.users
    then (s, none)
    else (let u : User = record {
      id = e.new_user_id;
      email = email;
      password_hash = hash;
      api_key = key;
      role = "user";
      tier = "free";
    } in
        (with_users (s.accounts.users ++ u ∷ []) s, some u))

-- GetAuthInfoByEmail: the first of the rows with this address.
unfoldable pub query_get_auth_info_by_email : Services → String → Site → Option User
query_get_auth_info_by_email e email s =
    if e.fails get_auth_info_by_email
    then none
    else find_user (λ u. u.email == email) s.accounts.users

unfoldable pub query_create_web_session : Services → String → Time → Site → Site × Option Uuid
query_create_web_session e user expires s = if e.fails create_web_session then (s, none) else (
  with_sessions
      (record { id = e.new_session_id; user_id = user; expires_at = expires } ∷ s.accounts.sessions)
      s,
  some e.new_session_id,
)

unfoldable pub sessions_without : Uuid → List WebSession → List WebSession
sessions_without id [] = []
sessions_without id (s ∷ ss) =
    if uuid_eq s.id id then sessions_without id ss else s ∷ sessions_without id ss

unfoldable pub query_delete_web_session : Services → Uuid → Site → Site
query_delete_web_session e id s =
    if e.fails delete_web_session
    then s
    else with_sessions (sessions_without id s.accounts.sessions) s

-- UPDATE users SET ... WHERE id = ...
unfoldable pub update_user : String → (User → User) → List User → List User
update_user id f [] = []
update_user id f (u ∷ us) = (if u.id == id then f u else u) ∷ update_user id f us

abbrev pub other_has_key : String → String → List User → Bool
other_has_key id key users = any (λ u. not (u.id == id) && u.api_key == key) users

-- UpdateUserAPIKey; `none` is an error, also where another row has the key.
unfoldable pub query_update_user_api_key : Services → String → String → Site → Option Site
query_update_user_api_key e key id s =
    if e.fails update_user_api_key || other_has_key id key s.accounts.users
    then none
    else some (with_users (update_user id (λ u. record u { api_key = key }) s.accounts.users) s)

-- RegisterUser; `none` is an error.
unfoldable pub register_user : Services → String → String → Site → Site × Option User
register_user e email password s = elim (e.hash_password password) [
  | none ↦ (s, none)
  | some hash ↦ elim e.random_key [
    | none ↦ (s, none)
    | some bytes ↦ query_create_user e email hash (from_chars (hex_encode bytes)) s
  ]
]

abbrev pub one_day : ℤ
one_day = pos 86400000000000

unfoldable pub session_text : Site × Option Uuid → Site × Option String
session_text (s, none) = (s, none)
session_text (s, some id) = (s, some (format_uuid id))

-- LoginUser: the id of the new session; `none` is an error.
unfoldable pub login_user : Services → String → String → Site → Site × Option String
login_user e email password s = elim (query_get_auth_info_by_email e email s) [
  | none ↦ (s, none)
  | some info ↦
      if e.password_matches info.password_hash password
      then session_text (query_create_web_session e info.id (e.now +ℤ one_day) s)
      else (s, none)
]

-- RotateAPIKey; `none` is an error.
unfoldable pub rotate_api_key : Services → String → Site → Site × Option String
rotate_api_key e user s = elim e.random_key [
  | none ↦ (s, none)
  | some bytes ↦
      let key = from_chars (hex_encode bytes) in
      elim (query_update_user_api_key e key user s) [ none ↦ (s, none) | some s' ↦ (s', some key) ]
]

pub record AuthInput : Type 0 where
  pub email : String
  pub password : String

unfoldable pub signed_up : Site × Option User → Site × AccountReply
signed_up (s, none) = (s, answer 400)
signed_up (s, some u) =
    (audit u.id "auth.signup" "user" u.id s, record (answer 201) { user = some u })

-- apiSignupHandler
unfoldable pub api_signup : Services → Option AuthInput → Site → Site × AccountReply
unfolding signed_up
api_signup e none s = (s, answer 400)
api_signup e (some input) s =
    let email = e.trim_space input.email in
    if email == "" || input.password == ""
    then (s, answer 400)
    else signed_up (register_user e email input.password s)

-- The user of the session that has just begun, if it can be read.
unfoldable pub begun_user : Services → Option Uuid → Site → Option User
begun_user e none s = none
begun_user e (some id) s =
    if e.fails get_user_by_session then none else query_get_user_by_session_id s.accounts id e.now

abbrev login_reply : List ℕ → String → Option User → AccountReply
login_reply statuses cookie u = record {
  statuses = statuses;
  session_cookie = some cookie;
  user = u;
  api_key = none;
}

-- What follows the cookie.
unfoldable pub session_begun : Services → String → Site → Site × AccountReply
session_begun e cookie s =
    let (id, written) = must_parse_uuid cookie in
    elim (begun_user e id s) [
      | none ↦ (s, login_reply (written ++ 500 ∷ []) cookie none)
      | some u ↦ (
        audit u.id "auth.login" "session" cookie s,
        login_reply (written ++ 200 ∷ []) cookie (some u),
      )
    ]

unfoldable pub logged_in : Services → Site × Option String → Site × AccountReply
logged_in e (s, none) = (s, answer 401)
logged_in e (s, some cookie) = session_begun e cookie s

-- apiLoginHandler
unfoldable pub api_login : Services → Option AuthInput → Site → Site × AccountReply
api_login e none s = (s, answer 400)
api_login e (some input) s =
    let email = e.trim_space input.email in
    if email == "" || input.password == ""
    then (s, answer 400)
    else logged_in e (login_user e email input.password s)

-- The end of the session of a cookie that is a text of an id.
unfoldable pub end_session : Services → String → Site → Site
end_session e cookie s = elim (parse_uuid cookie) [
  | none ↦ s
  | some id ↦ query_delete_web_session e id s
]

abbrev log_logout : Option User → String → Site → Site
log_logout none cookie s = s
log_logout (some u) cookie s = audit u.id "auth.logout" "session" cookie s

-- apiLogoutHandler, for the user of the session if there is one; the cookie is cleared.
unfoldable pub api_logout : Services → Option User → Option String → Site → Site × AccountReply
api_logout e user none s = (s, record (answer 200) { session_cookie = some "" })
api_logout e user (some cookie) s = (
  if cookie == "" then s else log_logout user cookie (end_session e cookie s),
  record (answer 200) { session_cookie = some "" },
)

unfoldable rotated : String → Site × Option String → Site × AccountReply
rotated user (s, none) = (s, answer 500)
rotated user (s, some key) =
    (audit user "user.rotate_api_key" "user" user s, record (answer 200) { api_key = some key })

-- apiRotateAPIKeyHandler
unfoldable pub api_rotate_api_key : Services → Option User → Site → Site × AccountReply
unfolding rotated
api_rotate_api_key e none s = (s, answer 401)
api_rotate_api_key e (some u) s = rotated u.id (rotate_api_key e u.id s)
