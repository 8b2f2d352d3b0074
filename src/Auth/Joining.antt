-- ===== src/Auth/Joining.antt =====
-- From signing up to the first requests: apiSignupHandler and apiLoginHandler of
-- cmd/server/api_handlers.go, and EchoSessionMiddleware.
use gsactions_mcp.Auth.{
  with_sessions, key_taken, query_create_user, query_get_auth_info_by_email,
  query_create_web_session, register_user, one_day, session_text, login_user, AuthInput, signed_up,
  api_signup, begun_user, session_begun, logged_in, api_login,
}
use gsactions_mcp.Auth.Signup.{find_user-other, api_login-echo_session_middleware}
use gsactions_mcp.Common.{
  ◌==◌, eq_refl, String, ◌≡◌, refl, sym, ap, ◌∙◌, ◌⊎◌, inl, inr, Bool, true, false, ◌||◌, Option,
  none, some, List, [], ◌∷◌, ◌++◌, arith, Bool-cases, Option-cases, some-inj, from_chars,
}
use gsactions_mcp.Common.Int.{◌+ℤ◌, ltb_ℤ}
use gsactions_mcp.Middleware.{
  User, WebSession, HttpRequest, Context, goes_on, find_user, session_user,
  query_get_user_by_session_id, with_user, echo_session_middleware,
}
use gsactions_mcp.Presence.Limit.{later}
use gsactions_mcp.Rest.{must_parse_uuid}
use gsactions_mcp.Site.{
  Site, Statement, create_user, get_auth_info_by_email, create_web_session, get_user_by_session,
  Services, audit,
}
use gsactions_mcp.Store.{Time}
use gsactions_mcp.Store.Laws.{uuid_eq_refl}
use gsactions_mcp.Uuid.{hex_encode, format_uuid}
use gsactions_mcp.Uuid.RoundTrip.{IsUuid, parse_uuid-format_uuid}

find_user-append :
    (p : User → Bool) (us : List User) (u : User)
    → find_user p us ≡ none
    → p u ≡ true
    → find_user p (us ++ u ∷ []) ≡ some u
unfolding find_user
find_user-append p [] u new holds = ground (arith, holds)
find_user-append p (v ∷ us) u new holds = elim (Bool-cases (p v)) [
  | inl there ↦ absurd (ground (arith, there, new))
  | inr other ↦ rw other (find_user-append p us u (rw other at new) holds)
]

abbrev made_user : Services → String → String → String → User
made_user e email hash key = record {
  id = e.new_user_id;
  email = email;
  password_hash = hash;
  api_key = key;
  role = "user";
  tier = "free";
}

module _ (e : Services) (email password : String) (s : Site) where
  -- What a registration that is not an error has put into the table.
  abbrev Registered : Site × Option User → Type 0
  Registered (s', none) = ⊥
  Registered (s', some u) =
      (hash key : String) × (e.hash_password password ≡ some hash)
      × (s'.accounts.users ≡ s.accounts.users ++ made_user e email hash key ∷ [])

  register_user-Registered :
      (register_user e email password s ≡ (s, none)) ⊎ Registered (register_user e email password s)
  unfolding register_user query_create_user
  register_user-Registered = elim (Option-cases (e.hash_password password)) [
    | inl no_hash ↦ inl (rw (no_hash, register_user) refl)
    | inr (hash, hashed) ↦ elim (Option-cases e.random_key) [
      | inl no_key ↦ inl (rw (hashed, register_user, no_key) refl)
      | inr (bytes, drawn) ↦
          let key = from_chars (hex_encode bytes) in
          elim (Bool-cases (e.fails create_user || key_taken key s.accounts.users)) [
            | inl clash ↦ inl (rw (hashed, register_user, drawn, clash) refl)
            | inr made ↦ inr (rw (hashed, register_user, drawn, made) (hash, key, hashed, refl))
          ]
    ]
  ]

-- A registration keeps its row through the entry in the log.
signed_up-Registered :
    (e : Services) (email password : String) (s : Site) (out : Site × Option User)
    → Registered e email password s out
    → (hash key : String) × (e.hash_password password ≡ some hash)
      × ((signed_up out).0.accounts.users ≡ s.accounts.users ++ made_user e email hash key ∷ [])
unfolding signed_up audit
signed_up-Registered e email password s (s', none) made = absurd made
signed_up-Registered e email password s (s', some u) made = made

-- What a signup that is answered with 201 has done.
signup_made :
    (e : Services) (input : AuthInput) (s : Site)
    → (api_signup e (some input) s).1.statuses ≡ 201 ∷ []
    → ((e.trim_space input.email == "" || input.password == "") ≡ false)
      × ((hash key : String) × (e.hash_password input.password ≡ some hash)
          × ((api_signup e (some input) s).0.accounts.users
              ≡ s.accounts.users ++ made_user e (e.trim_space input.email) hash key ∷ []))
unfolding api_signup signed_up
signup_made e input s ok =
    let email = e.trim_space input.email in
    elim (Bool-cases (email == "" || input.password == "")) [
      | inl missing ↦ absurd (ground (arith, missing, ok))
      | inr full ↦ elim (register_user-Registered e email input.password s) [
        | inl no_user ↦ absurd (ground (arith, full, no_user, ok))
        | inr made ↦ (
          full,
          rw full (
              signed_up-Registered e email input.password s (register_user e email input.password s)
                made),
        )
      ]
    ]

-- A row that is there is found by its id, or another with the same id is.
find_user-id :
    (us : List User) (u : User) (p : User → Bool)
    → find_user p us ≡ some u
    → (v : User) × (find_user (λ w. w.id == u.id) us ≡ some v)
find_user-id us u p found =
    let (v, there, same) = find_user-other p (λ w. w.id == u.id) us {u = u} found (eq_refl u.id) in
    (v, there)

-- A login with the address and the password of a row goes through.
login_user-row :
    (e : Services) (email password : String) (s : Site) {u : User}
    → e.fails get_auth_info_by_email ≡ false
    → e.fails create_web_session ≡ false
    → find_user (λ v. v.email == email) s.accounts.users ≡ some u
    → e.password_matches u.password_hash password ≡ true
    → login_user e email password s ≡ (
      with_sessions
          (record { id = e.new_session_id; user_id = u.id; expires_at = e.now +ℤ one_day }
            ∷ s.accounts.sessions)
          s,
      some (format_uuid e.new_session_id),
    )
unfolding login_user query_get_auth_info_by_email session_text query_create_web_session
login_user-row e email password s readable writable found good =
    rw (readable, login_user, found) (rw (good, writable) refl)

-- The session that it begins is answered with 200.
session_begun-row :
    (e : Services) (s : Site) (x : WebSession) (xs : List WebSession) {v : User}
    → IsUuid x.id
    → e.fails get_user_by_session ≡ false
    → ltb_ℤ e.now x.expires_at ≡ true
    → find_user (λ w. w.id == x.user_id) s.accounts.users ≡ some v
    → s.accounts.sessions ≡ x ∷ xs
    → (logged_in e (s, some (format_uuid x.id))).1.statuses ≡ 200 ∷ []
unfolding logged_in session_begun must_parse_uuid begun_user query_get_user_by_session_id
    session_user
session_begun-row e s x xs well readable alive found table =
    rw (parse_uuid-format_uuid x.id well, session_begun, must_parse_uuid, begun_user)
      (rw (readable, table)
        (rw (uuid_eq_refl x.id, alive)
          (rw found (rw (parse_uuid-format_uuid x.id well, must_parse_uuid) refl))))

-- A login with the address and the password of a row is answered with 200.
api_login-row :
    (f : Services) (input : AuthInput) (v : Site) {u : User}
    → (f.trim_space input.email == "" || input.password == "") ≡ false
    → ((q : Statement) → f.fails q ≡ false)
    → IsUuid f.new_session_id
    → find_user (λ w. w.email == f.trim_space input.email) v.accounts.users ≡ some u
    → f.password_matches u.password_hash input.password ≡ true
    → (api_login f (some input) v).1.statuses ≡ 200 ∷ []
unfolding api_login
api_login-row f input v {u} full up well found good =
    let (w, there) = find_user-id v.accounts.users u _ found in
    rw
      (
        full,
        login_user-row f (f.trim_space input.email) input.password v {u = u}
            (up get_auth_info_by_email) (up create_web_session) found good,
      )
      (session_begun-row f _
        (record { id = f.new_session_id; user_id = u.id; expires_at = f.now +ℤ one_day })
        v.accounts.sessions {v = w} well (up get_user_by_session) (later f.now 86399999999999) there
        refl)

module _ (e f : Services) (input : AuthInput) (s : Site) (c : Context) where
  -- A user who signed up, answered with 201, under an address that no row had, can log in later with
  -- the same address and password: the answer is 200, and until a day after it a request with the
  -- cookie that it sets goes on as a user with the id that was made. This takes of bcrypt that a
  -- password matches its hash, and is for a login whose statements do not fail, that trims the
  -- address to the same text, and whose session id has 16 bytes.
  pub api_login-api_signup :
      (moment : Time) (r : HttpRequest)
      → ((password hash : String)
          → e.hash_password password ≡ some hash
          → f.password_matches hash password ≡ true)
      → ((q : Statement) → f.fails q ≡ false)
      → f.trim_space input.email ≡ e.trim_space input.email
      → IsUuid f.new_session_id
      → find_user (λ u. u.email == e.trim_space input.email) s.accounts.users ≡ none
      → (api_signup e (some input) s).1.statuses ≡ 201 ∷ []
      → r.session_id ≡ (api_login f (some input) (api_signup e (some input) s).0).1.session_cookie
      → ltb_ℤ moment (f.now +ℤ one_day) ≡ true
      → ((api_login f (some input) (api_signup e (some input) s).0).1.statuses ≡ 200 ∷ [])
        × ((u : User) × (u.id ≡ e.new_user_id)
            × (echo_session_middleware
                  (api_login f (some input) (api_signup e (some input) s).0).0.accounts
                  moment
                  r
                  c
                ≡ goes_on (with_user c u)))
  api_login-api_signup moment r matches up trims well new ok given alive =
      let v = (api_signup e (some input) s).0 in
      let (full, (hash, key, hashed, table)) = signup_made e input s ok in
      let found : find_user (λ u. u.email == f.trim_space input.email) v.accounts.users
          ≡ some (made_user e (e.trim_space input.email) hash key) =
        rw (trims, table)
          (find_user-append _ s.accounts.users _ new (eq_refl (e.trim_space input.email))) in
      let entered =
        api_login-row f input v {u = made_user e (e.trim_space input.email) hash key}
          (rw trims full) up well found (matches input.password hash hashed) in
      let (info, u, there, good, same, admitted) =
        api_login-echo_session_middleware f input v moment r c well entered given alive in
      (entered, (u, same ∙ ap (λ w. w.id) (some-inj (sym there ∙ found)), admitted))
