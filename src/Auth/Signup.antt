-- ===== src/Auth/Signup.antt =====
-- From signing up and logging in to the session middleware.
use gsactions_mcp.Auth.{
  query_get_auth_info_by_email, query_create_web_session, one_day, session_text, login_user,
  AuthInput, begun_user, session_begun, logged_in, api_login,
}
use gsactions_mcp.Common.{
  ◌==◌, eq_iff, eq_refl, String, ◌≡◌, refl, ap, ap₂, ◌∙◌, ◌⊎◌, inl, inr, Bool, true, ◌||◌, Option,
  none, some, List, [], ◌∷◌, arith, Bool-cases, Option-cases,
}
use gsactions_mcp.Common.Int.{◌+ℤ◌, ltb_ℤ}
use gsactions_mcp.Middleware.{
  User, WebSession, Accounts, HttpRequest, Context, goes_on, find_user, session_user,
  query_get_user_by_session_id, with_user, cookie_user, echo_session_middleware,
}
use gsactions_mcp.Presence.Limit.{later}
use gsactions_mcp.Rest.{must_parse_uuid}
use gsactions_mcp.Site.{Site, get_auth_info_by_email, create_web_session, Services, audit}
use gsactions_mcp.Store.{Time}
use gsactions_mcp.Store.Laws.{uuid_eq_refl}
use gsactions_mcp.Uuid.{format_uuid}
use gsactions_mcp.Uuid.RoundTrip.{IsUuid, parse_uuid-format_uuid}

-- A row that one condition finds is a row for any other condition that holds of it.
pub find_user-other :
    (p q : User → Bool) (us : List User) {u : User}
    → find_user p us ≡ some u
    → q u ≡ true
    → (v : User) × (find_user q us ≡ some v) × (q v ≡ true)
unfolding find_user
find_user-other p q [] h k = cc
find_user-other p q (v ∷ us) {u} h k = elim (Bool-cases (q v)) [
  | inl here ↦ (v, rw here, here)
  | inr not_here ↦ elim (Bool-cases (p v)) [
    | inl found ↦ absurd (ground (arith, found, h, k, not_here))
    | inr not_found ↦
        let (w, e, held) = find_user-other p q us {u = u} (rw not_found at h) k in
        (w, rw not_here e, held)
  ]
]

module _ (e : Services) (email password : String) (s : Site) where
  -- A login that gives a cookie has found the address with a password that matches, and has begun
  -- a session of that account.
  abbrev Begun : Site × Option String → Type 0
  Begun (s', none) = ⊥
  Begun (s', some cookie) =
      (info : User) × (find_user (λ u. u.email == email) s.accounts.users ≡ some info)
      × (e.password_matches info.password_hash password ≡ true)
      × (cookie ≡ format_uuid e.new_session_id)
      × (s'.accounts ≡ record {
        users = s.accounts.users;
        sessions =
            record { id = e.new_session_id; user_id = info.id; expires_at = e.now +ℤ one_day }
            ∷ s.accounts.sessions;
      })

  login_user-Begun :
      (login_user e email password s ≡ (s, none)) ⊎ Begun (login_user e email password s)
  unfolding login_user query_get_auth_info_by_email session_text query_create_web_session
  login_user-Begun = elim (Bool-cases (e.fails get_auth_info_by_email)) [
    | inl down ↦ inl (ground (arith, down))
    | inr up ↦ elim (Option-cases (find_user (λ u. u.email == email) s.accounts.users)) [
      | inl nobody ↦ inl (ground (arith, up, nobody))
      | inr (info, found) ↦ elim (Bool-cases (e.password_matches info.password_hash password)) [
        | inl good ↦ elim (Bool-cases (e.fails create_web_session)) [
          | inl broken ↦ inl (ground (arith, up, found, good, broken))
          | inr fine ↦ inr (rw (up, login_user, found, good, fine) (info, found, good, refl, refl))
        ]
        | inr bad ↦ inl (ground (arith, up, found, bad))
      ]
    ]
  ]

-- What follows a login keeps its accounts and sets its cookie.
logged_in-keeps :
    (e : Services) (s : Site) (cookie : String)
    → ((logged_in e (s, some cookie)).0.accounts ≡ s.accounts)
      × ((logged_in e (s, some cookie)).1.session_cookie ≡ some cookie)
unfolding logged_in session_begun audit
logged_in-keeps e s cookie = elim (Option-cases (begun_user e (must_parse_uuid cookie).0 s)) [
  | inl nobody ↦ (ground (arith, nobody), ground (arith, nobody))
  | inr (u, found) ↦ (ground (arith, found), ground (arith, found))
]

-- The first session in a table, while it is alive, leads to the user with its `user_id`.
cookie_user-first :
    (users : List User) (x : WebSession) (ss : List WebSession) (later : Time)
    → IsUuid x.id
    → ltb_ℤ later x.expires_at ≡ true
    → cookie_user (record { users = users; sessions = x ∷ ss }) later (some (format_uuid x.id))
      ≡ find_user (λ u. u.id == x.user_id) users
unfolding cookie_user query_get_user_by_session_id session_user
cookie_user-first users x ss later well alive =
    rw (parse_uuid-format_uuid x.id well, cookie_user) (rw (uuid_eq_refl x.id, alive) refl)

echo_session_middleware-known :
    (accounts : Accounts) (later : Time) (r : HttpRequest) (c : Context) (u : User)
    → cookie_user accounts later r.session_id ≡ some u
    → echo_session_middleware accounts later r c ≡ goes_on (with_user c u)
unfolding echo_session_middleware
echo_session_middleware-known accounts later r c u known = ground (arith, known)

module _ (e : Services) (email password : String) (s : Site) (later : Time) (r : HttpRequest)
    (c : Context) where
  Begun-admits :
      (out : Site × Option String)
      → Begun e email password s out
      → IsUuid e.new_session_id
      → ltb_ℤ later (e.now +ℤ one_day) ≡ true
      → r.session_id ≡ (logged_in e out).1.session_cookie
      → (info u : User) × (find_user (λ v. v.email == email) s.accounts.users ≡ some info)
        × (e.password_matches info.password_hash password ≡ true)
        × (u.id ≡ info.id)
        × (echo_session_middleware (logged_in e out).0.accounts later r c ≡ goes_on (with_user c u))
  Begun-admits (s', none) began well alive given = absurd began
  Begun-admits (s', some cookie) (info, found, good, text, kept) well alive given =
      let (u, known, same) =
        find_user-other (λ v. v.email == email) (λ v. v.id == info.id) s.accounts.users {u = info}
          found (eq_refl info.id) in
      let (accounts, sent) = logged_in-keeps e s' cookie in
      (
        info,
        u,
        found,
        good,
        (eq_iff u.id info.id).0 same,
        echo_session_middleware-known (logged_in e (s', some cookie)).0.accounts later r c u (
            ap₂ (λ a k. cookie_user a later k) (accounts ∙ kept) (given ∙ sent ∙ ap some text)
            ∙ cookie_user-first s.accounts.users _ s.accounts.sessions later well alive
            ∙ known),
      )

module _ (e : Services) (input : AuthInput) (s : Site) (later : Time) (r : HttpRequest)
    (c : Context) where
  -- A login that is answered with 200 has found the address, without the space around it, with a
  -- password that matches its hash; and until a day later a request with the cookie that it sets
  -- goes on as a user with the id of that account. This is for a session id of 16 bytes.
  pub api_login-echo_session_middleware :
      IsUuid e.new_session_id
      → (api_login e (some input) s).1.statuses ≡ 200 ∷ []
      → r.session_id ≡ (api_login e (some input) s).1.session_cookie
      → ltb_ℤ later (e.now +ℤ one_day) ≡ true
      → (info u : User) × (find_user (λ v. v.email == e.trim_space input.email) s.accounts.users
          ≡ some info)
        × (e.password_matches info.password_hash input.password ≡ true)
        × (u.id ≡ info.id)
        × (echo_session_middleware (api_login e (some input) s).0.accounts later r c
            ≡ goes_on (with_user c u))
  unfolding api_login logged_in
  api_login-echo_session_middleware well ok given alive =
      let email = e.trim_space input.email in
      elim (Bool-cases (email == "" || input.password == "")) [
        | inl missing ↦ absurd (ground (arith, missing, ok))
        | inr full ↦ elim (login_user-Begun e email input.password s) [
          | inl no_login ↦ absurd (ground (arith, full, no_login, ok))
          | inr began ↦ rw full (
              Begun-admits e email input.password s later r c (login_user e email input.password s)
                began well alive (rw full at given))
        ]
      ]
