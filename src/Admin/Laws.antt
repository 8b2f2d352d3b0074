-- ===== src/Admin/Laws.antt =====
-- What the request of an admin does to the rows of users.
use mathlib.Core.Option
use gsactions_mcp.Admin.{
  AdminUpdateUserInput, roles, tiers, query_get_user, query_update_user_role,
  query_update_user_tier, or_500, role_step, tier_step, update_end, update_tier,
  api_admin_update_user,
}
use gsactions_mcp.Admin.Rows.{user_row, find-update_user, user_row-id}
use gsactions_mcp.Auth.{with_users, update_user}
use gsactions_mcp.Common.{
  ◌==◌, eq_iff, ℕ, String, ◌≡◌, refl, sym, subst, ◌∙◌, ◌⊎◌, inl, inr, ◌&&◌, not, Option, none, some,
  arith, Bool-cases, Option-cases, some-inj, any,
}
use gsactions_mcp.Middleware.{User}
use gsactions_mcp.Site.{Site, get_user, update_user_role, update_user_tier, Services, audit}

module _ (e : Services) (admin target : User) (input : AdminUpdateUserInput) (id : String) where
  abbrev IsAdmin : Site → Type 0
  IsAdmin s = (u : User) × (user_row admin.id s ≡ some u) × (u.role ≡ "admin")

  -- Other rows stay as they are, and the admin remains one.
  abbrev Kept : Site → Site → Type 0
  Kept before after =
      ((user_row id after ≡ user_row id before) ⊎ (id ≡ input.user_id))
      × (IsAdmin before → IsAdmin after)

  Kept-refl : (s : Site) → Kept s s
  Kept-refl s = (inl refl, λ h. h)

  Kept-trans : (a b c : Site) → Kept a b → Kept b c → Kept a c
  Kept-trans a b c (inl p, f) (inl q, g) = (inl (q ∙ p), λ h. g (f h))
  Kept-trans a b c (inr p, f) (q, g) = (inr p, λ h. g (f h))
  Kept-trans a b c (inl p, f) (inr q, g) = (inr q, λ h. g (f h))

  update_user-Kept :
      (f : User → User) (s : Site)
      → ((u : User) → (f u).id ≡ u.id)
      → ((u : User)
          → u.id ≡ admin.id
          → u.id ≡ input.user_id
          → u.role ≡ "admin"
          → (f u).role ≡ "admin")
      → Kept s (with_users (update_user input.user_id f s.accounts.users) s)
  update_user-Kept f s keeps remains = (others, mine)
    where
      others :
          (user_row id (with_users (update_user input.user_id f s.accounts.users) s)
            ≡ user_row id s)
          ⊎ (id ≡ input.user_id)
      others = elim (Option-cases (user_row id s)) [
        | inl nobody ↦
            inl
              (find-update_user id input.user_id f s.accounts.users keeps ∙ ground (arith, nobody))
        | inr (u, found) ↦ elim (Bool-cases (u.id == input.user_id)) [
          | inl hit ↦ inr (
              sym (user_row-id id s.accounts.users {u = u} found)
              ∙ (eq_iff u.id input.user_id).0 hit)
          | inr other ↦ inl (
              find-update_user id input.user_id f s.accounts.users keeps
              ∙ ground (arith, found, other))
        ]
      ]

      mine : IsAdmin s → IsAdmin (with_users (update_user input.user_id f s.accounts.users) s)
      mine (u, found, role) = elim (Bool-cases (u.id == input.user_id)) [
        | inl hit ↦ (
          f u,
          find-update_user admin.id input.user_id f s.accounts.users keeps
              ∙ ground (arith, found, hit),
          remains u (user_row-id admin.id s.accounts.users {u = u} found)
              ((eq_iff u.id input.user_id).0 hit) role,
        )
        | inr other ↦ (
          u,
          find-update_user admin.id input.user_id f s.accounts.users keeps
              ∙ ground (arith, found, other),
          role,
        )
      ]

  role_step-Kept :
      (s : Site) → target.id ≡ input.user_id → Kept s (role_step e admin target input s).0
  unfolding role_step query_update_user_role or_500
  role_step-Kept s same = elim (Bool-cases (input.role == "")) [
    | inl left_out ↦ rw left_out (Kept-refl s)
    | inr given ↦ elim (Bool-cases (any (λ r. input.role == r) roles)) [
      | inr unknown ↦ rw (given, unknown) (Kept-refl s)
      | inl known ↦ elim (Bool-cases (target.id == admin.id && not (input.role == "admin"))) [
        | inl demotion ↦ rw (given, known, demotion) (Kept-refl s)
        | inr allowed ↦ elim (Bool-cases (e.fails update_user_role)) [
          | inl broken ↦ rw (given, known, allowed, broken) (Kept-refl s)
          | inr fine ↦
              rw (given, known, allowed, fine)
                (update_user-Kept (λ u. record u { role = input.role }) s (λ u. refl)
                  (λ u mine hit role. ground (
                    arith,
                    allowed,
                    eq_iff target.id admin.id,
                    eq_iff input.role "admin",
                    same ∙ sym hit ∙ mine,
                  )))
        ]
      ]
    ]
  ]

  tier_step-Kept : (s : Site) → Kept s (tier_step e input s).0
  unfolding tier_step query_update_user_tier or_500
  tier_step-Kept s = elim (Bool-cases (input.tier == "")) [
    | inl left_out ↦ rw left_out (Kept-refl s)
    | inr given ↦ elim (Bool-cases (any (λ r. input.tier == r) tiers)) [
      | inr unknown ↦ rw (given, unknown) (Kept-refl s)
      | inl known ↦ elim (Bool-cases (e.fails update_user_tier)) [
        | inl broken ↦ rw (given, known, broken) (Kept-refl s)
        | inr fine ↦
            rw (given, known, fine)
              (update_user-Kept (λ u. record u { tier = input.tier }) s (λ u. refl)
                (λ u mine hit role. role))
      ]
    ]
  ]

  update_end-Kept :
      (s : Site) (out : Site × Option ℕ) → Kept s out.0 → Kept s (update_end admin input out).0
  unfolding update_end audit
  update_end-Kept s (s', none) k = k
  update_end-Kept s (s', some n) k = k

  update_tier-Kept :
      (s : Site) (out : Site × Option ℕ) → Kept s out.0 → Kept s (update_tier e admin input out).0
  unfolding update_tier
  update_tier-Kept s (s', some n) k = k
  update_tier-Kept s (s', none) k =
      update_end-Kept s (tier_step e input s')
        (Kept-trans s s' (tier_step e input s').0 k (tier_step-Kept s'))

-- A request to change a user leaves every other row of the users as it is, and whatever it asks for,
-- and however it is answered, the admin who makes it is an admin afterwards.
pub api_admin_update_user-Kept :
    (e : Services) (admin : User) (body : Option AdminUpdateUserInput) (id target : String)
    (s : Site)
    → Option.map (λ (i : AdminUpdateUserInput). i.user_id) body ≡ some target
    → (u : User) × (user_row admin.id s ≡ some u) × (u.role ≡ "admin")
    → ((user_row id (api_admin_update_user e (some admin) body s).0 ≡ user_row id s)
        ⊎ (id ≡ target))
      × ((u : User) × (user_row admin.id (api_admin_update_user e (some admin) body s).0 ≡ some u)
          × (u.role ≡ "admin"))
unfolding api_admin_update_user query_get_user
api_admin_update_user-Kept e admin none id target s named before = absurd (cc)
api_admin_update_user-Kept e admin (some input) id target s named before =
    elim (Bool-cases (input.user_id == "")) [
      | inl unnamed ↦ rw unnamed (inl refl, before)
      | inr given ↦ elim (Bool-cases (e.fails get_user)) [
        | inl down ↦ rw (given, down) (inl refl, before)
        | inr up ↦ elim (Option-cases (user_row input.user_id s)) [
          | inl nobody ↦ rw (given, up, nobody) (inl refl, before)
          | inr (u, found) ↦
              let kept = update_tier-Kept e admin u input id s (role_step e admin u input s) (
                role_step-Kept e admin u input id s
                  (user_row-id input.user_id s.accounts.users {u = u} found)) in
              rw (given, up, found)
                (
                  subst
                      (λ t.
                        (user_row id (update_tier e admin input (role_step e admin u input s)).0
                          ≡ user_row id s)
                        ⊎ (id ≡ t))
                      (some-inj named) kept.0,
                  kept.1 before,
                )
        ]
      ]
    ]
