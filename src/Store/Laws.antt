-- ===== src/Store/Laws.antt =====
-- What the statements of db/queries.sql.go do to a row.
use mathlib.Core.Option
use gsactions_mcp.Common.{
  eq_refl, String, ◌≡◌, refl, ◌∙◌, Bool, true, false, Option, none, some, List, [], ◌∷◌, arith,
  if◌then◌else◌,
}
use gsactions_mcp.Store.{
  Task, World, Query, Env, status_active, status_paused, status_completed, status_error,
  status_halted,
}
use gsactions_mcp.Store.Queries.{
  status_allowed, update_where, has_id, owned, find_where, exec, update_rows,
}
use gsactions_mcp.Uuid.{Uuid, uuid_eq}

-- The row with an id.
abbrev pub row : Uuid → World → Option Task
row id w = find_where (has_id id) w.tasks

pub uuid_eq_refl : (u : Uuid) → uuid_eq u u ≡ true
unfolding uuid_eq
uuid_eq_refl [] = refl
uuid_eq_refl (a ∷ u) = ground (arith, uuid_eq_refl u)

pub uuid_eq→eq : (u v : Uuid) → uuid_eq u v ≡ true → u ≡ v
unfolding uuid_eq
uuid_eq→eq [] [] h = refl
uuid_eq→eq [] (b ∷ v) h = cc
uuid_eq→eq (a ∷ u) [] h = cc
uuid_eq→eq (a ∷ u) (b ∷ v) h = ground (arith, uuid_eq→eq u v)

-- The row found after an update is the row found before, updated if the condition holds of it.
pub find-update_where :
    (id : Uuid) (p : Task → Bool) (f : Task → Task) (ts : List Task)
    → ((t : Task) → (f t).id ≡ t.id)
    → find_where (has_id id) (update_where p f ts)
      ≡ Option.map (λ t. if p t then f t else t) (find_where (has_id id) ts)
unfolding find_where update_where
find-update_where id p f [] h = refl
find-update_where id p f (t ∷ ts) h = ground (arith, h t, find-update_where id p f ts h)

find_where-id :
    (id : Uuid) (ts : List Task) {t : Task} → find_where (has_id id) ts ≡ some t → t.id ≡ id
unfolding find_where
find_where-id id [] h = cc
find_where-id id (s ∷ ts) {t} h = ground (arith, uuid_eq→eq s.id id, find_where-id id ts {t = t})

pub row-id : (id : Uuid) (w : World) {t : Task} → row id w ≡ some t → t.id ≡ id
row-id id w h = find_where-id id w.tasks h

find-update_where_other :
    (id : Uuid) (p : Task → Bool) (f : Task → Task) (ts : List Task)
    → ((t : Task) → (f t).id ≡ t.id)
    → ((t : Task) → t.id ≡ id → p t ≡ false)
    → find_where (has_id id) (update_where p f ts) ≡ find_where (has_id id) ts
find-update_where_other id p f ts h out =
    find-update_where id p f ts h
    ∙ unchanged (find_where (has_id id) ts) (λ t e. find_where-id id ts e)
  where
    unchanged :
        (o : Option Task)
        → ((t : Task) → o ≡ some t → t.id ≡ id)
        → Option.map (λ t. if p t then f t else t) o ≡ o
    unchanged none g = refl
    unchanged (some t) g = rw (out t (g t refl))

module _ (env : Env) (q : Query) (status : String) (p : Task → Bool) (f : Task → Task) where
  -- A call that succeeds updates the row.
  pub row-update_rows :
      (id : Uuid) (w : World)
      → ((t : Task) → (f t).id ≡ t.id)
      → env.fails q ≡ false
      → status_allowed status ≡ true
      → row id (update_rows env q status p f w)
        ≡ Option.map (λ t. if p t then f t else t) (row id w)
  unfolding update_rows
  row-update_rows id w h up allowed = rw (up, allowed) (find-update_where id p f w.tasks h)

  -- Whatever fails, a row that the condition leaves out is unchanged.
  pub row-update_rows_other :
      (id : Uuid) (w : World)
      → ((t : Task) → (f t).id ≡ t.id)
      → ((t : Task) → t.id ≡ id → p t ≡ false)
      → row id (update_rows env q status p f w) ≡ row id w
  unfolding update_rows exec
  row-update_rows_other id w h out = ground (arith, find-update_where_other id p f w.tasks h out)

-- The condition `WHERE id = ... AND user_id = ...` holds of the row itself.
pub owned_self : (t : Task) → owned t.id t.user_id t ≡ true
owned_self t = rw (uuid_eq_refl t.id, eq_refl t.user_id)

pub allowed_active : status_allowed status_active ≡ true
unfolding status_allowed
allowed_active = refl

pub allowed_paused : status_allowed status_paused ≡ true
unfolding status_allowed
allowed_paused = refl

pub allowed_error : status_allowed status_error ≡ true
unfolding status_allowed
allowed_error = refl

pub allowed_halted : status_allowed status_halted ≡ true
unfolding status_allowed
allowed_halted = refl

pub allowed_completed : status_allowed status_completed ≡ true
unfolding status_allowed
allowed_completed = refl

-- The first row with the id and the user is the first row with the id.
pub find_owned :
    (id : Uuid) (user : String) (ts : List Task) {t : Task}
    → find_where (has_id id) ts ≡ some t
    → t.user_id ≡ user
    → find_where (owned id user) ts ≡ some t
unfolding find_where
find_owned id user [] h own = cc
find_owned id user (s ∷ ts) {t} h own = ground (arith, find_owned id user ts {t = t}, eq_refl user)
