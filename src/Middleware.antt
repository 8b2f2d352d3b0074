-- ===== src/Middleware.antt =====
-- cmd/server/middleware.go: who a request comes from, and whether it goes on to its handler.
-- A middleware goes on with a context, or answers with a status; the bodies of answers are left out.
pub mod Laws
use gsactions_mcp.Common.{
  ◌==◌, ℕ, String, Bool, true, false, ◌&&◌, not, Option, none, some, List, [], ◌∷◌, if◌then◌else◌,
  any, to_chars,
}
use gsactions_mcp.Common.Int.{ltb_ℤ}
use gsactions_mcp.Json.{text_or_empty}
use gsactions_mcp.RateLimit.{allow}
use gsactions_mcp.Store.{Time}
use gsactions_mcp.Template.{strip_prefix}
use gsactions_mcp.Uuid.{Uuid, uuid_eq, parse_uuid}

-- db.User, without its times; a text column is empty for NULL.
pub record User : Type 0 where
  pub id : String
  pub email : String
  pub password_hash : String
  pub api_key : String
  pub role : String
  pub tier : String

-- db.WebSession
pub record WebSession : Type 0 where
  pub id : Uuid
  pub user_id : String
  pub expires_at : Time

pub record Accounts : Type 0 where
  pub users : List User
  pub sessions : List WebSession

pub record HttpRequest : Type 0 where
  pub path : String
  -- the cookie session_id
  pub session_id : Option String
  -- the header X-API-Key, empty where it is missing
  pub api_key : String

-- What is set in the context of a request.
pub record Context : Type 0 where
  pub user : Option User
  pub user_id : Option String
  pub user_role : Option String
  pub user_tier : Option String

abbrev pub empty_context : Context
empty_context = record { user = none; user_id = none; user_role = none; user_tier = none }

pub data Answer : Type 0 where
  goes_on : Context → Answer
  refused : ℕ → Answer

-- The next middleware.
abbrev and_then : Answer → (Context → Answer) → Answer
and_then (goes_on c) next = next c
and_then (refused status) next = refused status

unfoldable pub find_user : (User → Bool) → List User → Option User
find_user p [] = none
find_user p (u ∷ us) = if p u then some u else find_user p us

-- The row of the join for one session.
user_of_session : List User → WebSession → Option User
user_of_session users s = find_user (λ u. u.id == s.user_id) users

unfoldable pub session_user : Accounts → Uuid → Time → List WebSession → Option User
unfolding user_of_session
session_user accounts id now [] = none
session_user accounts id now (s ∷ ss) =
    let rest = session_user accounts id now ss in
    if uuid_eq s.id id && ltb_ℤ now s.expires_at then user_of_session accounts.users s else rest

-- GetUserBySessionID and GetUserByAPIKey; `none` stands for any error, so also for a call that fails.
unfoldable pub query_get_user_by_session_id : Accounts → Uuid → Time → Option User
query_get_user_by_session_id accounts id now = session_user accounts id now accounts.sessions

unfoldable pub query_get_user_by_api_key : Accounts → String → Option User
query_get_user_by_api_key accounts key = find_user (λ u. u.api_key == key) accounts.users

-- strings.HasPrefix(path, "/api/")
unfoldable pub is_api : String → Bool
is_api path = elim (strip_prefix (to_chars "/api/") (to_chars path)) [
  | none ↦ false
  | some rest ↦ true
]

-- Without a session an API answers 401, and a page goes on without a user.
abbrev no_session : HttpRequest → Context → Answer
no_session r c = if is_api r.path then refused 401 else goes_on c

abbrev pub with_user : Context → User → Context
with_user c u = record c { user = some u; user_id = some u.id; user_role = some u.role }

-- The user of the request's cookie.
unfoldable pub cookie_user : Accounts → Time → Option String → Option User
cookie_user accounts now none = none
cookie_user accounts now (some cookie) = elim (parse_uuid cookie) [
  | none ↦ none
  | some id ↦ query_get_user_by_session_id accounts id now
]

unfoldable pub echo_session_middleware : Accounts → Time → HttpRequest → Context → Answer
echo_session_middleware accounts now r c = elim (cookie_user accounts now r.session_id) [
  | none ↦ no_session r c
  | some u ↦ goes_on (with_user c u)
]

-- EchoRequireRole
unfoldable pub echo_require_role : List String → HttpRequest → Context → Answer
echo_require_role roles r c = elim c.user_role [
  | none ↦ refused (if is_api r.path then 401 else 403)
  | some role ↦
      if role == ""
      then refused (if is_api r.path then 401 else 403)
      else if any (λ a. a == role) roles
      then goes_on c
      else refused 403
]

-- EchoAuthMiddleware; `allow` is the rate limiter's answer for a user.
unfoldable echo_auth_middleware : Accounts → (String → Bool) → HttpRequest → Context → Answer
echo_auth_middleware accounts allow r c =
    if r.api_key == "" then refused 401 else elim (query_get_user_by_api_key accounts r.api_key) [
      | none ↦ refused 401
      | some u ↦
          if allow u.id
          then goes_on (record c { user_id = some u.id; user_tier = some u.tier })
          else refused 429
    ]

-- getUserID
unfoldable pub get_user_id : Context → String
get_user_id c = elim c.user [ some u ↦ u.id | none ↦ text_or_empty c.user_id ]

-- getUserTier
unfoldable get_user_tier : Context → String
get_user_tier c = elim c.user [
  | some u ↦ u.tier
  | none ↦ let tier = text_or_empty c.user_tier in if tier == "" then "free" else tier
]

unfoldable pub echo_rate_limit_middleware : (String → Bool) → Context → Answer
echo_rate_limit_middleware allow c =
    if not (get_user_id c == "") && not (allow (get_user_id c)) then refused 429 else goes_on c

-- The user of NetHttpAuthMiddleware: that of the key, or else that of the cookie.
unfoldable pub net_http_user : Accounts → Time → HttpRequest → Option User
net_http_user accounts now r =
    elim (if r.api_key == "" then none else query_get_user_by_api_key accounts r.api_key) [
      | some u ↦ if u.id == "" then cookie_user accounts now r.session_id else some u
      | none ↦ cookie_user accounts now r.session_id
    ]

unfoldable pub net_http_auth_middleware :
    Accounts → (String → Bool) → Time → HttpRequest → Context → Answer
net_http_auth_middleware accounts allow now r c = elim (net_http_user accounts now r) [
  | none ↦ refused 401
  | some u ↦
      if u.id == ""
      then refused 401
      else if allow u.id
      then goes_on (record c { user_id = some u.id; user_tier = some u.tier })
      else refused 429
]

-- The groups of cmd/server/main.go that ask for a role, behind the session and the rate limit. The
-- check against request forgery, which a library does before them, is left out.
unfoldable pub role_group : Accounts → (String → Bool) → Time → List String → HttpRequest → Answer
role_group accounts allow now roles r =
    and_then (echo_session_middleware accounts now r empty_context)
      λ c. and_then (echo_rate_limit_middleware allow c) (echo_require_role roles r)
