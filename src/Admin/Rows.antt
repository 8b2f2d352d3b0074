-- ===== src/Admin/Rows.antt =====
-- Updates of the rows of users.
use mathlib.Core.Option
use gsactions_mcp.Auth.{update_user}
use gsactions_mcp.Common.{
  ◌==◌, eq_iff, String, ◌≡◌, refl, Option, some, List, [], ◌∷◌, arith, if◌then◌else◌,
}
use gsactions_mcp.Middleware.{User, find_user}
use gsactions_mcp.Site.{Site}

-- The row of a user.
abbrev pub user_row : String → Site → Option User
user_row id s = find_user (λ u. u.id == id) s.accounts.users

abbrev updated_user : String → (User → User) → User → User
updated_user y f u = if u.id == y then f u else u

pub find-update_user :
    (id y : String) (f : User → User) (us : List User)
    → ((u : User) → (f u).id ≡ u.id)
    → find_user (λ u. u.id == id) (update_user y f us)
      ≡ Option.map (updated_user y f) (find_user (λ u. u.id == id) us)
unfolding find_user update_user
find-update_user id y f [] keeps = refl
find-update_user id y f (u ∷ us) keeps = ground (arith, keeps u, find-update_user id y f us keeps)

pub user_row-id :
    (id : String) (us : List User) {u : User} → find_user (λ v. v.id == id) us ≡ some u → u.id ≡ id
unfolding find_user
user_row-id id [] h = cc
user_row-id id (v ∷ us) {u} h = ground (arith, user_row-id id us {u = u}, eq_iff v.id id)
