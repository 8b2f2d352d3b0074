-- ===== src/Middleware/Laws.antt =====
-- Who gets past the middleware.
use gsactions_mcp.Admin.{roles}
use gsactions_mcp.Common.{
  ◌==◌, eq_iff, String, ◌≡◌, refl, sym, ◌⊎◌, inl, inr, Bool, true, ◌&&◌, ◌||◌, Option, none, some,
  List, [], ◌∷◌, Memᴰ, arith, if◌then◌else◌, Bool-cases, Option-cases, some-inj, none-ne-some, any,
}
use gsactions_mcp.Common.Int.{ltb_ℤ}
use gsactions_mcp.Middleware.{
  User, WebSession, Accounts, HttpRequest, Context, empty_context, goes_on, find_user, session_user,
  query_get_user_by_session_id, query_get_user_by_api_key, with_user, cookie_user,
  echo_session_middleware, echo_require_role, get_user_id, echo_rate_limit_middleware,
  net_http_user, net_http_auth_middleware, role_group,
}
use gsactions_mcp.Store.{Time}
use gsactions_mcp.Store.Laws.{uuid_eq→eq}
use gsactions_mcp.Uuid.{Uuid, uuid_eq, parse_uuid}

-- A session of the table that is alive now leads to this user, who is in the table of users.
abbrev pub SignedIn : Accounts → Time → HttpRequest → User → Type 0
SignedIn accounts now r u =
    (cookie : String) × (id : Uuid) × (s : WebSession) × Memᴰ s accounts.sessions
    × (r.session_id ≡ some cookie)
    × (parse_uuid cookie ≡ some id)
    × (s.id ≡ id)
    × (ltb_ℤ now s.expires_at ≡ true)
    × (u.id ≡ s.user_id)
    × Memᴰ u accounts.users

find_user-holds :
    (p : User → Bool) (us : List User) {u : User} → find_user p us ≡ some u → p u ≡ true
unfolding find_user
find_user-holds p [] h = cc
find_user-holds p (v ∷ us) {u} h = ground (arith, find_user-holds p us {u = u})

find_user-Memᴰ : (p : User → Bool) (us : List User) {u : User} → find_user p us ≡ some u → Memᴰ u us
unfolding find_user
find_user-Memᴰ p [] h = absurd (none-ne-some h)
find_user-Memᴰ p (v ∷ us) {u} h = elim (Bool-cases (p v)) [
  | inl here ↦ Memᴰ.head (sym (some-inj (rw here at h)))
  | inr other ↦ Memᴰ.tail (find_user-Memᴰ p us {u = u} (rw other at h))
]

session_user-alive :
    (accounts : Accounts) (id : Uuid) (now : Time) (ss : List WebSession) {u : User}
    → session_user accounts id now ss ≡ some u
    → (s : WebSession) × Memᴰ s ss
      × (s.id ≡ id)
      × (ltb_ℤ now s.expires_at ≡ true)
      × (u.id ≡ s.user_id)
      × Memᴰ u accounts.users
unfolding session_user
session_user-alive accounts id now [] h = cc
session_user-alive accounts id now (s ∷ ss) {u} h =
    elim (Bool-cases (uuid_eq s.id id && ltb_ℤ now s.expires_at)) [
      | inl alive ↦ (
        s,
        Memᴰ.head refl,
        ground (arith, alive, uuid_eq→eq s.id id),
        ground (arith, alive),
        (eq_iff u.id s.user_id).0 (
            find_user-holds (λ v. v.id == s.user_id) accounts.users {u = u}
              (ground (arith, h, alive))),
        find_user-Memᴰ (λ v. v.id == s.user_id) accounts.users {u = u} (ground (arith, h, alive)),
      )
      | inr dead ↦
          let (x, there, same, alive, owner, known) =
            session_user-alive accounts id now ss {u = u} (ground (arith, h, dead)) in
          (x, Memᴰ.tail there, same, alive, owner, known)
    ]

module _ (accounts : Accounts) (now : Time) (r : HttpRequest) where
  cookie_user-SignedIn :
      {u : User} → cookie_user accounts now r.session_id ≡ some u → SignedIn accounts now r u
  unfolding cookie_user query_get_user_by_session_id
  cookie_user-SignedIn {u} h = elim (Option-cases r.session_id) [
    | inl missing ↦ absurd (none-ne-some (rw missing at h))
    | inr (cookie, given) ↦ elim (Option-cases (parse_uuid cookie)) [
      | inl bad ↦ absurd (none-ne-some (rw (given, bad, cookie_user) at h))
      | inr (id, parsed) ↦
          let (s, there, same, alive, owner, known) =
            session_user-alive accounts id now accounts.sessions {u = u}
              (rw (given, parsed, cookie_user) at h) in
          (cookie, id, s, there, given, parsed, same, alive, owner, known)
    ]
  ]

  module _ (allow : String → Bool) where
    -- A request gets past a group of routes for some roles only with a cookie that is the id of a
    -- session in the table, still alive, whose user is in the table of users, has one of these roles
    -- and is within the rate limit; it goes on as this user. This holds for API paths and for pages.
    pub role_group-admits :
        (roles : List String) {c : Context}
        → role_group accounts allow now roles r ≡ goes_on c
        → (u : User) × SignedIn accounts now r u
          × (any (λ a. a == u.role) roles ≡ true)
          × ((u.id == "" || allow u.id) ≡ true)
          × (c ≡ with_user empty_context u)
    unfolding role_group echo_session_middleware echo_rate_limit_middleware echo_require_role
        get_user_id
    role_group-admits roles {c} h = elim (Option-cases (cookie_user accounts now r.session_id)) [
      | inl nobody ↦ absurd (ground (arith, h, nobody))
      | inr (u, known) ↦ (
        u,
        cookie_user-SignedIn {u = u} known,
        ground (arith, h, known),
        ground (arith, h, known),
        ground (arith, h, known),
      )
    ]

    -- The user that the key gives, if there is one with an id, and else that of the cookie.
    abbrev key_or_cookie : Option User → Option User
    key_or_cookie none = cookie_user accounts now r.session_id
    key_or_cookie (some v) = if v.id == "" then cookie_user accounts now r.session_id else some v

    key_or_cookie-inv :
        (o : Option User) {u : User}
        → key_or_cookie o ≡ some u
        → (o ≡ some u) ⊎ (cookie_user accounts now r.session_id ≡ some u)
    key_or_cookie-inv none h = inr h
    key_or_cookie-inv (some v) h = elim (Bool-cases (v.id == "")) [
      | inl unnamed ↦ inr (rw unnamed at h)
      | inr named ↦ inl (rw named at h)
    ]

    net_http_user-known :
        {u : User}
        → net_http_user accounts now r ≡ some u
        → (u.api_key ≡ r.api_key) ⊎ SignedIn accounts now r u
    unfolding net_http_user query_get_user_by_api_key
    net_http_user-known {u} h =
        elim (key_or_cookie-inv
          (if r.api_key == "" then none else query_get_user_by_api_key accounts r.api_key) {u = u}
          h) [
            | inl by_key ↦ inl (
                (eq_iff u.api_key r.api_key).0 (
                  find_user-holds (λ v. v.api_key == r.api_key) accounts.users {u = u}
                    (ground (arith, by_key))))
            | inr by_cookie ↦ inr (cookie_user-SignedIn {u = u} by_cookie)
          ]

    -- A request gets past the authentication of the MCP endpoints only with the key of a user, or
    -- with a cookie that is the id of a session still alive, and within the rate limit; it goes on
    -- under that user's id and tier.
    net_http_auth_middleware-admits :
        (before : Context) {c : Context}
        → net_http_auth_middleware accounts allow now r before ≡ goes_on c
        → (u : User) × ((u.api_key ≡ r.api_key) ⊎ SignedIn accounts now r u)
          × (allow u.id ≡ true)
          × (c ≡ record before { user_id = some u.id; user_tier = some u.tier })
    unfolding net_http_auth_middleware
    net_http_auth_middleware-admits before {c} h =
        elim (Option-cases (net_http_user accounts now r)) [
          | inl nobody ↦ absurd (ground (arith, h, nobody))
          | inr (u, known) ↦ (
            u,
            net_http_user-known {u = u} known,
            ground (arith, h, known),
            ground (arith, h, known),
          )
        ]
