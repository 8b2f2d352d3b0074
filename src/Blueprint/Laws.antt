-- ===== src/Blueprint/Laws.antt =====
-- A deployment adds all of a template's tasks or changes nothing.
-- So many more tasks of the user's, and the others' as before.
use gsactions_mcp.Blueprint.{
  IdMap, blueprint_params, deploy_all, find_template, query_increment_template_uses,
  deploy_in_transaction, DeployRequest, workspace_ok, deploy_template, api_deploy_blueprint,
}
use gsactions_mcp.Common.{
  ◌==◌, eq_refl, ℕ, suc, ◌+◌, String, ◌≡◌, refl, sym, ◌∙◌, ◌≢◌, ◌⊎◌, inl, inr, ◌||◌, not, some,
  List, [], ◌∷◌, arith, Bool-cases, Option-cases, some-inj, length,
}
use gsactions_mcp.Quota.{count_tasks}
use gsactions_mcp.Rest.{Answered}
use gsactions_mcp.Store.{
  BlueprintTask, Template, World, create_task_query, get_template_by_id_raw, Env,
}
use gsactions_mcp.Store.Queries.{filter_where}
use gsactions_mcp.Tools.Create.{new_row, row_allowed, query_create_task}
use gsactions_mcp.Tools.Isolation.{others}
use gsactions_mcp.Uuid.{Uuid, parse_uuid}

abbrev Grown : String → World → ℕ → World → Type 0
Grown user w n v =
    (count_tasks user v.tasks ≡ count_tasks user w.tasks + n)
    × (others user v.tasks ≡ others user w.tasks)

Grown-trans :
    (user : String) (w u v : World) (n : ℕ)
    → Grown user w 1 u
    → Grown user u n v
    → Grown user w (suc n) v
Grown-trans user w u v n (one, same) (more, still) = (omega arith, still ∙ same)

module _ (env : Env) (user : String) (vars : List (String × String)) where
  query_create_task-Grown :
      (ids : IdMap) (bt : BlueprintTask) (w : World) {id : Uuid}
      → (query_create_task env (blueprint_params env user vars ids bt) w).1 ≡ some id
      → Grown user w 1 (query_create_task env (blueprint_params env user vars ids bt) w).0
  unfolding query_create_task blueprint_params new_row count_tasks filter_where
  query_create_task-Grown ids bt w made =
      elim (Bool-cases (
        env.fails create_task_query || not (row_allowed (blueprint_params env user vars ids bt)))) [
          | inl fails ↦ cc (rw fails at made)
          | inr works ↦ rw works (ground (arith, eq_refl user), ground (arith, eq_refl user))
        ]

  deploy_all-Grown :
      (bts : List BlueprintTask) (ids : IdMap) (w : World) {v : World}
      → deploy_all env user vars ids bts w ≡ some v
      → Grown user w (length bts) v
  unfolding deploy_all
  deploy_all-Grown [] ids w done = rw (sym (some-inj done)) (omega arith, refl)
  deploy_all-Grown (bt ∷ bts) ids w {v} done =
      elim (Option-cases (query_create_task env (blueprint_params env user vars ids bt) w).1) [
        | inl refused_task ↦ cc (rw (refused_task, deploy_all) at done)
        | inr (id, made) ↦
            let u = (query_create_task env (blueprint_params env user vars ids bt) w).0 in
            Grown-trans user w u v (length bts) (query_create_task-Grown ids bt w made)
              (deploy_all-Grown bts _ u (rw (made, deploy_all) at done))
      ]

  deploy_in_transaction-Grown :
      (id : Uuid) (bts : List BlueprintTask) (w : World) {v : World}
      → deploy_in_transaction env user vars id bts w ≡ some v
      → Grown user w (length bts) v
  unfolding deploy_in_transaction query_increment_template_uses
  deploy_in_transaction-Grown id bts w {v} done =
      elim (Option-cases (deploy_all env user vars [] bts w)) [
        | inl rolled_back ↦ ground (arith, rolled_back)
        | inr (u, made) ↦ ground (arith, made, deploy_all-Grown bts [] w made)
      ]

-- What a deployment of a template with these tasks does: nothing, and it says so, or all of it.
abbrev pub Deployed : String → World → List BlueprintTask → Answered → Type 0
Deployed user w bts r =
    ((r.0 ≡ w) × (r.1 ≢ 201 ∷ [])) ⊎ ((r.1 ≡ 201 ∷ []) × Grown user w (length bts) r.0)

refused-Deployed :
    (user : String) (w : World) (bts : List BlueprintTask) (n : ℕ)
    → n ≢ 201
    → Deployed user w bts (w, n ∷ [])
refused-Deployed user w bts n other =
    inl (refl, λ (e : n ∷ [] ≡ 201 ∷ []). ground (arith, e, other))

module _ (env : Env) (user : String) (w : World) where
  deploy_template-Deployed :
      (req : DeployRequest) (id : Uuid) (t : Template) (bts : List BlueprintTask)
      → t.config ≡ some bts
      → Deployed user w bts (deploy_template env user req id (some t) w)
  unfolding deploy_template
  deploy_template-Deployed req id t bts read = elim (Bool-cases (workspace_ok req.workspace_id)) [
    | inr bad ↦ rw (read, bad, deploy_template) (refused-Deployed user w bts 400 (ground arith))
    | inl good ↦ elim (Option-cases (deploy_in_transaction env user req.variables id bts w)) [
      | inl rolled_back ↦
          rw (read, good, rolled_back, deploy_template)
            (refused-Deployed user w bts 500 (ground arith))
      | inr (v, done) ↦
          rw (read, good, done, deploy_template)
            (inr (refl, deploy_in_transaction-Grown env user req.variables id bts w done))
    ]
  ]

  -- A deployment is all or nothing: either it is answered with 201, and then the user has exactly as
  -- many more tasks as the template has, and the tasks of other users are as before, or it is answered
  -- with another status, and then nothing at all has changed. This holds whatever calls fail, for a
  -- template that is there and whose configuration is read.
  pub api_deploy_blueprint-Deployed :
      (req : DeployRequest) (id : Uuid) (t : Template) (bts : List BlueprintTask)
      → parse_uuid req.template_id ≡ some id
      → find_template id w.templates ≡ some t
      → t.config ≡ some bts
      → Deployed user w bts (api_deploy_blueprint env user (some req) w)
  unfolding api_deploy_blueprint
  api_deploy_blueprint-Deployed req id t bts named found read = elim (Bool-cases (user == "")) [
    | inl nobody ↦ rw (nobody) (refused-Deployed user w bts 401 (ground arith))
    | inr known ↦ elim (Bool-cases (env.fails get_template_by_id_raw)) [
      | inl fails ↦
          rw (known, named, fails, api_deploy_blueprint)
            (refused-Deployed user w bts 500 (ground arith))
      | inr works ↦
          rw (known, named, works, found, api_deploy_blueprint)
            (deploy_template-Deployed req id t bts read)
    ]
  ]
