-- ===== src/Admin/Payments.antt =====
-- What a reported payment does, also when it is reported again.
use gsactions_mcp.Admin.{
  query_get_user, query_update_user_tier, StripeEvent, unreadable, bad_signature, other_event,
  bad_session, checkout_completed, upgrade, api_stripe_webhook,
}
use gsactions_mcp.Admin.Rows.{user_row, find-update_user, user_row-id}
use gsactions_mcp.Auth.{with_users, update_user}
use gsactions_mcp.Common.{
  ◌==◌, eq_iff, ℕ, String, ◌≡◌, refl, sym, ap, ◌∙◌, ◌⊎◌, inl, inr, false, some, arith, Bool-cases,
  Option-cases,
}
use gsactions_mcp.Middleware.{User}
use gsactions_mcp.Site.{Site, get_user, update_user_tier, Services, audit}

abbrev upgraded : String → Site → Site
upgraded id s =
    audit id "billing.upgrade" "user" id
      (with_users (update_user id (λ v. record v { tier = "pro" }) s.accounts.users) s)

module _ (e : Services) (id : String) where
  abbrev paid : Site → Site × ℕ
  paid = api_stripe_webhook e (checkout_completed id)

  paid_already :
      (s : Site) {u : User}
      → (id == "") ≡ false
      → e.fails get_user ≡ false
      → user_row id s ≡ some u
      → u.tier ≡ "pro"
      → paid s ≡ (s, 200)
  unfolding api_stripe_webhook query_get_user upgrade
  paid_already s {u} named up found pro =
      rw (named, up, found) (ground (arith, pro, eq_iff u.tier "pro"))

  upgraded_row :
      (s : Site) {u : User}
      → user_row id s ≡ some u
      → user_row id (upgraded id s) ≡ some (record u { tier = "pro" })
  unfolding audit
  upgraded_row s {u} found =
      find-update_user id id (λ v. record v { tier = "pro" }) s.accounts.users (λ v. refl)
      ∙ ground (arith, found, user_row-id id s.accounts.users {u = u} found, eq_iff u.id id)

  -- What one report of a payment does: nothing, or the upgrade.
  paid-cases :
      (s : Site)
      → ((n : ℕ) × (paid s ≡ (s, n)))
        ⊎ ((paid s ≡ (upgraded id s, 200)) × (paid (upgraded id s) ≡ (upgraded id s, 200)))
  unfolding api_stripe_webhook query_get_user upgrade query_update_user_tier
  paid-cases s = elim (Bool-cases (id == "")) [
    | inl unnamed ↦ inl (200, ground (arith, unnamed))
    | inr named ↦ elim (Bool-cases (e.fails get_user)) [
      | inl down ↦ inl (500, ground (arith, named, down))
      | inr up ↦ elim (Option-cases (user_row id s)) [
        | inl nobody ↦ inl (500, ground (arith, named, up, nobody))
        | inr (u, found) ↦ elim (Bool-cases (u.tier == "pro")) [
          | inl pro ↦ inl (200, ground (arith, named, up, found, pro))
          | inr other ↦ elim (Bool-cases (e.fails update_user_tier)) [
            | inl broken ↦ inl (500, ground (arith, named, up, found, other, broken))
            | inr fine ↦ inr (
              ground (arith, named, up, found, other, fine),
              paid_already (upgraded id s) {u = record u { tier = "pro" }} named up
                  (upgraded_row s {u = u} found) refl,
            )
          ]
        ]
      ]
    ]
  ]

-- A payment that is reported again changes nothing more, and has the same answer: the user is
-- upgraded, and the upgrade logged, at most once. This holds for any event and any state.
pub api_stripe_webhook_again :
    (e : Services) (event : StripeEvent) (s : Site)
    → api_stripe_webhook e event (api_stripe_webhook e event s).0 ≡ api_stripe_webhook e event s
unfolding api_stripe_webhook
api_stripe_webhook_again e unreadable s = refl
api_stripe_webhook_again e bad_signature s = refl
api_stripe_webhook_again e other_event s = refl
api_stripe_webhook_again e bad_session s = refl
api_stripe_webhook_again e (checkout_completed id) s = elim (paid-cases e id s) [
  | inl (n, same) ↦ ap (λ (o : Site × ℕ). paid e id o.0) same
  | inr (first, second) ↦ ap (λ (o : Site × ℕ). paid e id o.0) first ∙ second ∙ sym first
]
