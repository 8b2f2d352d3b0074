-- ===== src/Rest/Isolated.antt =====
-- The handlers do not touch the tasks of other users.
use gsactions_mcp.Common.{
  ◌==◌, ℕ, String, ◌≡◌, refl, inl, inr, Bool, Option, none, some, List, [], ◌∷◌, arith, Bool-cases,
  Option-cases, All,
}
use gsactions_mcp.Rest.{
  Answered, must_parse_uuid, optional_uuid, on_id, set_status, api_pause_task, api_resume_task,
  api_delete_task, LinkTaskRequest, link_parsed, api_link_task,
}
use gsactions_mcp.Rest.Approvals.{decide_approval, api_approve_task, api_deny_task}
use gsactions_mcp.Rest.Versions.{
  UpdateTaskRequest, query_create_task_version, updated_row,
  query_update_task_agent_prompt_and_policy, update_parsed, api_update_task, restored_row,
  named_version, query_restore_task_from_version, restore_parsed, api_restore_task_version,
}
use gsactions_mcp.Store.{World, Env, status_active, status_paused}
use gsactions_mcp.Store.Queries.{
  exec, query_update_task_approval_status, query_update_task_status_by_user_id, query_delete_task,
}
use gsactions_mcp.Tools.{write_audit_log}
use gsactions_mcp.Tools.Isolation.{others, others-update_where, others-delete, others-update_rows}
use gsactions_mcp.Transfer.{query_link_task_dependency}
use gsactions_mcp.Uuid.{Uuid}

module _ (env : Env) (user text : String) (w : World) where
  kept_by_id :
      (id : Option Uuid) (f : Uuid → World → World)
      → ((i : Uuid) → others user (f i w).tasks ≡ others user w.tasks)
      → others user (on_id id f w).tasks ≡ others user w.tasks
  unfolding on_id
  kept_by_id none f same = refl
  kept_by_id (some i) f same = same i

  others-status :
      (status : String) (i : Uuid)
      → others user (query_update_task_status_by_user_id env status i user w).tasks
        ≡ others user w.tasks
  unfolding query_update_task_status_by_user_id
  others-status status i = others-update_rows env _ status user i _ w (λ t. refl)

  others-set_status :
      (status action : String)
      → others user (set_status env status action user text w).0.tasks ≡ others user w.tasks
  unfolding set_status write_audit_log
  others-set_status status action = ground (
    arith,
    kept_by_id (must_parse_uuid text).0 (λ i. query_update_task_status_by_user_id env status i user)
        (others-status status),
  )

  others-query_delete_task :
      (i : Uuid) → others user (query_delete_task env i user w).tasks ≡ others user w.tasks
  unfolding query_delete_task exec
  others-query_delete_task i = ground (arith, others-delete i user w.tasks)

  others-api_delete_task :
      others user (api_delete_task env user text w).0.tasks ≡ others user w.tasks
  unfolding api_delete_task write_audit_log
  others-api_delete_task = ground (
    arith,
    kept_by_id (must_parse_uuid text).0 (λ i. query_delete_task env i user)
        others-query_delete_task,
  )

  others-link :
      (parent : Option Uuid) (trigger : Bool) (i : Uuid)
      → others user (query_link_task_dependency env parent trigger i user w).tasks
        ≡ others user w.tasks
  unfolding query_link_task_dependency
  others-link parent trigger i = others-update_where i user _ w.tasks (λ t. refl)

  others-link_parsed :
      (req : LinkTaskRequest) (id parent : Option Uuid × List ℕ)
      → others user (link_parsed env user text req id parent w).0.tasks ≡ others user w.tasks
  unfolding link_parsed write_audit_log
  others-link_parsed req (id, written) (parent, more) = ground (
    arith,
    kept_by_id id (λ i. query_link_task_dependency env parent req.trigger_on_completion i user)
        (others-link parent req.trigger_on_completion),
  )

  others-api_link_task :
      (body : Option LinkTaskRequest)
      → others user (api_link_task env user text body w).0.tasks ≡ others user w.tasks
  unfolding api_link_task
  others-api_link_task none = ground arith
  others-api_link_task (some req) =
      ground (
        arith,
        others-link_parsed req (must_parse_uuid text) (optional_uuid req.depends_on_task_id),
      )

module _ (env : Env) (user text : String) where
  tasks-query_create_task_version :
      (id : Option Uuid) (w : World) → (query_create_task_version env id user w).tasks ≡ w.tasks
  unfolding query_create_task_version
  tasks-query_create_task_version none w = refl
  tasks-query_create_task_version (some id) w = ground arith

  others-update_parsed :
      (req : UpdateTaskRequest) (id parent : Option Uuid × List ℕ) (w : World)
      → others user (update_parsed env user text req id parent w).0.tasks ≡ others user w.tasks
  unfolding update_parsed write_audit_log on_id query_update_task_agent_prompt_and_policy
      updated_row
  others-update_parsed req (none, written) (parent, more) w =
      ground (arith, tasks-query_create_task_version none w)
  others-update_parsed req (some id, written) (parent, more) w = ground (
    arith,
    tasks-query_create_task_version (some id) w,
    others-update_where id user (updated_row req parent)
        (query_create_task_version env (some id) user w).tasks (λ t. refl),
  )

  others-api_update_task :
      (body : Option UpdateTaskRequest) (w : World)
      → others user (api_update_task env user text body w).0.tasks ≡ others user w.tasks
  unfolding api_update_task
  others-api_update_task none w = ground arith
  others-api_update_task (some req) w = elim (Bool-cases (user == "")) [
    | inl nobody ↦ rw (nobody) refl
    | inr somebody ↦ rw (somebody) (others-update_parsed req (must_parse_uuid text) _ w)
  ]

  others-restore :
      (version id : Option Uuid) (w : World) {v : World}
      → query_restore_task_from_version env version id user w ≡ some v
      → others user v.tasks ≡ others user w.tasks
  unfolding query_restore_task_from_version
  others-restore version id w {v} found = elim (Option-cases (named_version version id user w)) [
    | inl unnamed ↦ ground (arith, unnamed)
    | inr (x, named) ↦
        ground
          (arith, named, others-update_where x.task_id user (restored_row x) w.tasks (λ t. refl))
  ]

  others-restore_parsed :
      (id version : Option Uuid × List ℕ) (w : World)
      → others user (restore_parsed env user text id version w).0.tasks ≡ others user w.tasks
  unfolding restore_parsed write_audit_log
  others-restore_parsed (id, written) (version, more) w =
      let kept = query_create_task_version env id user w in
      let same = tasks-query_create_task_version id w in
      elim (Option-cases (query_restore_task_from_version env version id user kept)) [
        | inl fails ↦ ground (arith, fails)
        | inr (v, restored) ↦
            ground (arith, restored, same, others-restore version id kept restored)
      ]

  others-api_restore_task_version :
      (version_text : String) (w : World)
      → others user (api_restore_task_version env user text version_text w).0.tasks
        ≡ others user w.tasks
  unfolding api_restore_task_version
  others-api_restore_task_version version_text w =
      ground (arith, others-restore_parsed (must_parse_uuid text) (must_parse_uuid version_text) w)

  others-approval :
      (approval status : String) (i : Uuid) (w : World)
      → others user (query_update_task_approval_status env approval status i user w).tasks
        ≡ others user w.tasks
  unfolding query_update_task_approval_status
  others-approval approval status i w = others-update_rows env _ status user i _ w (λ t. refl)

  others-decide_approval :
      (approval status action : String) (w : World)
      → others user (decide_approval env approval status action (some user) text w).0.tasks
        ≡ others user w.tasks
  unfolding decide_approval write_audit_log
  others-decide_approval approval status action w = ground (
    arith,
    kept_by_id env user text w (must_parse_uuid text).0
        (λ i. query_update_task_approval_status env approval status i user)
        (λ (i : Uuid). others-approval approval status i w),
  )

  -- Whatever a user asks of the handlers that pause, resume, delete, link, change and restore a task,
  -- and that approve and deny a run, and whatever calls fail, the tasks of other users stay as they
  -- are. What the deletion of a task does through the foreign key of the tasks that wait for it, whose
  -- dependency Postgres clears, is left out.
  pub handlers_isolated :
      (version_text : String) (link : Option LinkTaskRequest) (change : Option UpdateTaskRequest)
      (w : World)
      → All
          (λ (r : Answered). others user r.0.tasks ≡ others user w.tasks)
          (api_pause_task env user text w
            ∷ api_resume_task env user text w
            ∷ api_delete_task env user text w
            ∷ api_link_task env user text link w
            ∷ api_update_task env user text change w
            ∷ api_restore_task_version env user text version_text w
            ∷ api_approve_task env (some user) text w
            ∷ api_deny_task env (some user) text w
            ∷ [])
  unfolding api_pause_task api_resume_task api_approve_task api_deny_task
  handlers_isolated version_text link change w = (
    others-set_status env user text w status_paused "task.pause",
    (
      others-set_status env user text w status_active "task.resume",
      (
        others-api_delete_task env user text w,
        (
          others-api_link_task env user text w link,
          (
            others-api_update_task change w,
            (
              others-api_restore_task_version version_text w,
              (
                others-decide_approval "approved" status_active "task.approve" w,
                (others-decide_approval "denied" status_paused "task.deny" w, tt),
              ),
            ),
          ),
        ),
      ),
    ),
  )
