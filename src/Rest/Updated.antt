-- ===== src/Rest/Updated.antt =====
-- What a change of a task that is answered with 200 has done: it keeps the version from before.
use gsactions_mcp.Common.{
  ℕ, String, ◌≡◌, refl, inl, inr, Bool, true, Option, none, some, List, [], ◌∷◌, ◌++◌, arith,
  nat_eq, Bool-cases, length, any,
}
use gsactions_mcp.Rest.{on_id, reference_ok}
use gsactions_mcp.Rest.Versions.{
  UpdateTaskRequest, version_of, query_create_task_version, updated_row,
  query_update_task_agent_prompt_and_policy, update_code, update_parsed,
}
use gsactions_mcp.Store.{Task, TaskVersion, World, Env, Up}
use gsactions_mcp.Store.Laws.{row, find_owned}
use gsactions_mcp.Store.Queries.{update_where, has_id, find_where}
use gsactions_mcp.Tools.{write_audit_log}
use gsactions_mcp.Uuid.{Uuid}

pub any-update_where :
    (id : Uuid) (p : Task → Bool) (f : Task → Task) (ts : List Task)
    → ((s : Task) → (f s).id ≡ s.id)
    → any (has_id id) (update_where p f ts) ≡ any (has_id id) ts
unfolding update_where
any-update_where id p f [] keeps = refl
any-update_where id p f (s ∷ ts) keeps = ground (arith, keeps s, any-update_where id p f ts keeps)

pub any-find_where :
    (p : Task → Bool) (ts : List Task) {t : Task} → find_where p ts ≡ some t → any p ts ≡ true
unfolding find_where
any-find_where p [] h = cc
any-find_where p (s ∷ ts) {t} h = ground (arith, any-find_where p ts {t = t})

-- The one code that is written is the last one.
only_code : (codes : List ℕ) (n : ℕ) → codes ++ (n ∷ []) ≡ 200 ∷ [] → nat_eq n 200 ≡ true
only_code [] n e = ground arith
only_code (c ∷ []) n e = ground arith
only_code (c ∷ d ∷ codes) n e = ground arith

module _ (env : Env) (up : Up env) (t : Task) (w : World) (here : row t.id w ≡ some t) where
  abbrev pub kept_version : TaskVersion
  kept_version = version_of (env.fresh_version_id (length w.versions)) t

  pub create_version_found :
      query_create_task_version env (some t.id) t.user_id w
      ≡ record w { versions = kept_version ∷ w.versions }
  unfolding query_create_task_version
  create_version_found =
      rw (find_owned t.id t.user_id w.tasks here refl, query_create_task_version) refl

  pub update_done :
      (text : String) (req : UpdateTaskRequest) (parent : Option Uuid × List ℕ)
      → (update_parsed env t.user_id text req (some t.id, []) parent w).1 ≡ 200 ∷ []
      → (update_parsed env t.user_id text req (some t.id, []) parent w).0
        ≡ write_audit_log t.user_id "task.update" "task" text (
            query_update_task_agent_prompt_and_policy req parent.0 t.user_id t.id
              (record w { versions = kept_version ∷ w.versions }))
  unfolding update_parsed on_id
  update_done text req (parent, more) answered =
      elim (Bool-cases (nat_eq (update_code env req (some t.id) parent t.user_id w) 200)) [
        | inl done ↦ rw (done, create_version_found) refl
        | inr failed_code ↦
            let answered' : more ++ (update_code env req (some t.id) parent t.user_id w ∷ [])
                ≡ 200 ∷ [] =
              rw (failed_code) at answered in
            cc (only_code more _ answered')
      ]

pub same_reference :
    (parent : Option Uuid) (v w : World)
    → v.tasks ≡ w.tasks
    → reference_ok parent w ≡ true
    → reference_ok parent v ≡ true
unfolding reference_ok
same_reference none v w same held = refl
same_reference (some id) v w same held = rw (same) held

pub updated_row-id :
    (req : UpdateTaskRequest) (parent : Option Uuid) (s : Task)
    → (updated_row req parent s).id ≡ s.id
unfolding updated_row
updated_row-id req parent s = refl
