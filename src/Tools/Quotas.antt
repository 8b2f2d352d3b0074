-- ===== src/Tools/Quotas.antt =====
-- The tool create_task never takes a user over the quota.
use gsactions_mcp.Common.{
  ◌==◌, suc, ◌≤◌, ◌<◌, String, ◌≡◌, refl, sym, subst, ◌∙◌, Option, none, some, List, ◌∷◌, arith,
  if◌then◌else◌, some-inj, length,
}
use gsactions_mcp.Json.{Fields}
use gsactions_mcp.Quota.{quota_limit, count_tasks, check_user_quota}
use gsactions_mcp.Quota.Laws.{check_user_quota_iff}
use gsactions_mcp.Store.{Task, World, Env}
use gsactions_mcp.Tools.{ToolRequest, Reply, tool_result, tool_error, ◌>>=◌, write_audit_log}
use gsactions_mcp.Tools.Create.{
  CreateTaskParams, new_row, query_create_task, tier_of, admission, params_of, create_params,
  insert_checked, create_task,
}
use gsactions_mcp.Uuid.{Uuid}

module _ {ℓ κ} {A : Type ℓ} {B : Type κ} (rest : A → Reply B) where
  >>=-eq-tool_result :
      (first : Reply A) {b : B}
      → (first >>= rest) ≡ tool_result b
      → (a : A) × (rest a ≡ tool_result b) × (first ≡ tool_result a)
  >>=-eq-tool_result (tool_error e) came = cc
  >>=-eq-tool_result (tool_result a) came = (a, came, refl)

admission-checked :
    (env : Env) (req : ToolRequest) (w : World) {args : Fields} {user : String}
    → admission env req w ≡ tool_result (args, user)
    → (req.user_id ≡ some user) × (check_user_quota env user (tier_of req) w ≡ none)
unfolding admission
admission-checked env req w h = ground arith

params_of-user :
    (env : Env) (encrypt : Fields → Option String) (w : World) (args : Fields) (user : String)
    {p : CreateTaskParams}
    → params_of env encrypt w (args, user) ≡ tool_result p
    → p.user_id ≡ user
unfolding params_of
params_of-user env encrypt w args user h = ground arith

-- What a request that reaches the insertion was checked for.
create_params-checked :
    (env : Env) (encrypt : Fields → Option String) (req : ToolRequest) (w : World)
    {p : CreateTaskParams}
    → create_params env encrypt req w ≡ tool_result p
    → (req.user_id ≡ some p.user_id) × (check_user_quota env p.user_id (tier_of req) w ≡ none)
unfolding create_params
create_params-checked env encrypt req w {p} h =
    let ((args, user), rest, admitted) =
      >>=-eq-tool_result (params_of env encrypt w) (admission env req w) h in
    let same : p.user_id ≡ user = params_of-user env encrypt w args user rest in
    rw same (admission-checked env req w admitted)

count_tasks-insert :
    (user : String) (id : Uuid) (p : CreateTaskParams) (ts : List Task)
    → count_tasks user (new_row id p ∷ ts)
      ≡ (if p.user_id == user then suc (count_tasks user ts) else count_tasks user ts)
unfolding count_tasks new_row
count_tasks-insert user id p ts = refl

module _ (env : Env) (encrypt : Fields → Option String) (req : ToolRequest) (w : World) where
  insert_checked-count :
      (r : Reply CreateTaskParams)
      → create_params env encrypt req w ≡ r
      → (user : String) → req.user_id ≡ some user
      → count_tasks user w.tasks ≤ quota_limit (tier_of req)
      → count_tasks user (insert_checked env w r).0.tasks ≤ quota_limit (tier_of req)
  unfolding insert_checked query_create_task write_audit_log
  insert_checked-count (tool_error m) e user caller before = before
  insert_checked-count (tool_result p) e user caller before =
      let (who, passed) = create_params-checked env encrypt req w e in
      let same : p.user_id ≡ user = some-inj (sym who ∙ caller) in
      let room = ((check_user_quota_iff env p.user_id (tier_of req) w).0 passed).1 in
      let room_here : count_tasks user w.tasks < quota_limit (tier_of req) =
        subst (λ u. count_tasks u w.tasks < quota_limit (tier_of req)) same room in
      ground (arith, room_here, count_tasks-insert user (env.fresh_id (length w.tasks)) p w.tasks)

  -- Creating a task through the tool keeps a user within the quota of the tier: if the caller had at
  -- most as many tasks as that allows, so it is after the call, whatever calls fail and whether the
  -- tool answers with a task or an error.
  pub create_task_within_quota :
      (user : String)
      → req.user_id ≡ some user
      → count_tasks user w.tasks ≤ quota_limit (tier_of req)
      → count_tasks user (create_task env encrypt req w).0.tasks ≤ quota_limit (tier_of req)
  unfolding create_task
  create_task_within_quota = insert_checked-count (create_params env encrypt req w) refl
