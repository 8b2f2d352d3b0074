-- ===== src/Auth/Laws.antt =====
-- Sessions and keys, from the handlers to the middleware.
use gsactions_mcp.Auth.{
  sessions_without, query_delete_web_session, update_user, other_has_key, query_update_user_api_key,
  rotate_api_key, end_session, api_logout, api_rotate_api_key,
}
use gsactions_mcp.Common.{
  ◌==◌, eq_iff, String, ◌≡◌, refl, sym, ap, ◌∙◌, inl, inr, false, ◌||◌, Option, none, some, List,
  [], ◌∷◌, arith, if◌then◌else◌, Bool-cases, Option-cases, none-ne-some, from_chars,
}
use gsactions_mcp.Middleware.{
  User, WebSession, Accounts, HttpRequest, Context, goes_on, refused, find_user, session_user,
  query_get_user_by_session_id, query_get_user_by_api_key, is_api, cookie_user,
  echo_session_middleware,
}
use gsactions_mcp.Site.{Site, delete_web_session, update_user_api_key, Services, audit}
use gsactions_mcp.Store.{Time}
use gsactions_mcp.Uuid.{Uuid, uuid_eq, hex_encode, strip_dashes, parse_uuid}

no_session_left :
    (accounts : Accounts) (id : Uuid) (now : Time) (ss : List WebSession)
    → session_user accounts id now (sessions_without id ss) ≡ none
unfolding session_user sessions_without
no_session_left accounts id now [] = refl
no_session_left accounts id now (s ∷ ss) = elim (Bool-cases (uuid_eq s.id id)) [
  | inl same ↦ rw same (no_session_left accounts id now ss)
  | inr other ↦ rw (other, session_user) (rw other (no_session_left accounts id now ss))
]

parse_uuid-empty : parse_uuid "" ≡ none
unfolding parse_uuid strip_dashes
parse_uuid-empty = refl

-- The handler's state but for the audit log.
api_logout-accounts :
    (e : Services) (user : Option User) (cookie : String) (s : Site) {id : Uuid}
    → e.fails delete_web_session ≡ false
    → parse_uuid cookie ≡ some id
    → (api_logout e user (some cookie) s).0.accounts
      ≡ record { users = s.accounts.users; sessions = sessions_without id s.accounts.sessions }
unfolding api_logout end_session query_delete_web_session audit
api_logout-accounts e user cookie s {id} up parsed = elim (Bool-cases (cookie == "")) [
  | inl empty ↦ absurd (
      none-ne-some
        (sym parse_uuid-empty ∙ ap parse_uuid (sym ((eq_iff cookie "").0 empty)) ∙ parsed))
  | inr text ↦ ground (arith, text, parsed, up)
]

cookie_user-logout :
    (e : Services) (user : Option User) (cookie : String) (s : Site) (now : Time)
    → e.fails delete_web_session ≡ false
    → cookie_user (api_logout e user (some cookie) s).0.accounts now (some cookie) ≡ none
unfolding cookie_user query_get_user_by_session_id
cookie_user-logout e user cookie s now up = elim (Option-cases (parse_uuid cookie)) [
  | inl bad ↦ rw (bad, cookie_user)
  | inr (id, parsed) ↦
      rw (parsed, cookie_user, api_logout-accounts e user cookie s up parsed)
        (no_session_left _ id now s.accounts.sessions)
]

-- Once a user has logged out, the cookie of the session does not admit anyone: a request to the API
-- with it is refused with 401 at every time, and a page is served without a user. This holds for any
-- text in the cookie, and is for a database that does not fail to delete the session.
pub api_logout-echo_session_middleware :
    (e : Services) (user : Option User) (cookie : String) (s : Site) (now : Time) (r : HttpRequest)
    (c : Context)
    → e.fails delete_web_session ≡ false
    → r.session_id ≡ some cookie
    → echo_session_middleware (api_logout e user (some cookie) s).0.accounts now r c
      ≡ (if is_api r.path then refused 401 else goes_on c)
unfolding echo_session_middleware
api_logout-echo_session_middleware e user cookie s now r c up given =
    ground (arith, given, cookie_user-logout e user cookie s now up)

key_of_updated :
    (id key k : String) (us : List User) {u : User}
    → find_user (λ v. v.api_key == k) (update_user id (λ v. record v { api_key = key }) us) ≡ some u
    → u.id ≡ id
    → key ≡ k
unfolding find_user update_user
key_of_updated id key k [] h same = cc
key_of_updated id key k (v ∷ us) {u} h same = elim (Bool-cases (v.id == id)) [
  | inl mine ↦ elim (Bool-cases (key == k)) [
    | inl found ↦ (eq_iff key k).0 found
    | inr not_found ↦ key_of_updated id key k us {u = u} (ground (arith, h, mine, not_found)) same
  ]
  | inr other ↦ elim (Bool-cases (v.api_key == k)) [
    | inl found ↦ absurd (ground (arith, h, other, found, same, eq_iff v.id id))
    | inr not_found ↦ key_of_updated id key k us {u = u} (ground (arith, h, other, not_found)) same
  ]
]

-- After a replacement of a user's key that is answered with 200, a key leads to that user only if it
-- is the new one, which is in the answer.
pub api_rotate_api_key-query_get_user_by_api_key :
    (e : Services) (user : User) (s : Site) (k : String) {u : User}
    → (api_rotate_api_key e (some user) s).1.statuses ≡ 200 ∷ []
    → query_get_user_by_api_key (api_rotate_api_key e (some user) s).0.accounts k ≡ some u
    → u.id ≡ user.id
    → (api_rotate_api_key e (some user) s).1.api_key ≡ some k
unfolding api_rotate_api_key rotate_api_key query_update_user_api_key query_get_user_by_api_key
    audit
api_rotate_api_key-query_get_user_by_api_key e user s k {u} ok found same =
    elim (Option-cases e.random_key) [
      | inl broken ↦ absurd (ground (arith, broken, ok))
      | inr (bytes, made) ↦
          let key = from_chars (hex_encode bytes) in
          elim (Bool-cases
            (e.fails update_user_api_key || other_has_key user.id key s.accounts.users)) [
              | inl refused_key ↦ absurd (ground (arith, made, refused_key, ok))
              | inr free ↦
                  let is_new : key ≡ k =
                    key_of_updated user.id key k s.accounts.users {u = u}
                      (ground (arith, made, free, found)) same in
                  ground (arith, made, free, is_new)
            ]
    ]
