-- ===== src/Tools/Isolation.antt =====
-- The tools on one task do not touch the tasks of other users.
use gsactions_mcp.Common.{
  ◌==◌, String, ◌≡◌, refl, sym, ◌∙◌, not, none, some, List, [], ◌∷◌, arith, some-inj,
}
use gsactions_mcp.Common.Int.{pos}
use gsactions_mcp.Dispatch.{publish_event}
use gsactions_mcp.Store.{
  Task, World, Query, update_task_status_by_user_id, reset_task_failure_count, Env, status_active,
  status_paused,
}
use gsactions_mcp.Store.Queries.{
  update_where, owned, filter_where, exec, update_rows, query_update_task_status_by_user_id,
  query_reset_task_failure_count, query_delete_task,
}
use gsactions_mcp.Tools.{
  ToolRequest, Reply, tool_result, tool_error, write_audit_log, own_task, pause_found, pause_task,
  resume_found, resume_task, delete_found, delete_task,
}
use gsactions_mcp.Uuid.{Uuid}

abbrev pub others : String → List Task → List Task
others user = filter_where (λ t. not (t.user_id == user))

pub others-update_where :
    (id : Uuid) (user : String) (f : Task → Task) (ts : List Task)
    → ((t : Task) → (f t).user_id ≡ t.user_id)
    → others user (update_where (owned id user) f ts) ≡ others user ts
unfolding filter_where update_where
others-update_where id user f [] keeps = refl
others-update_where id user f (t ∷ ts) keeps =
    ground (arith, keeps t, others-update_where id user f ts keeps)

pub others-delete :
    (id : Uuid) (user : String) (ts : List Task)
    → others user (filter_where (λ t. not (owned id user t)) ts) ≡ others user ts
unfolding filter_where
others-delete id user [] = refl
others-delete id user (t ∷ ts) = ground (arith, others-delete id user ts)

module _ (env : Env) (q : Query) (status user : String) (id : Uuid) (f : Task → Task)
    (w : World) where
  pub others-update_rows :
      ((t : Task) → (f t).user_id ≡ t.user_id)
      → others user (update_rows env q status (owned id user) f w).tasks ≡ others user w.tasks
  unfolding update_rows
  others-update_rows keeps = ground (arith, others-update_where id user f w.tasks keeps)

own_task-user :
    (env : Env) (req : ToolRequest) (w : World) {u id : String} {tid : Uuid}
    → own_task env req w ≡ tool_result (u, id, tid)
    → req.user_id ≡ some u
unfolding own_task
own_task-user env req w h = ground arith

-- The reply comes from a request of this user.
abbrev From : String → Reply (String × String × Uuid) → Type 0
From user (tool_result (u, id, tid)) = u ≡ user
From user (tool_error e) = Unit

own_task-From :
    (env : Env) (req : ToolRequest) (w : World) (user : String)
    → req.user_id ≡ some user
    → From user (own_task env req w)
own_task-From env req w user caller = go (own_task env req w) refl
  where
    go : (r : Reply (String × String × Uuid)) → own_task env req w ≡ r → From user r
    go (tool_result (u, id, tid)) e = some-inj (sym (own_task-user env req w e) ∙ caller)
    go (tool_error m) e = tt

module _ (env : Env) (w : World) (user : String) where
  pause_found_isolated :
      (r : Reply (String × String × Uuid))
      → From user r
      → others user (pause_found env w r).0.tasks ≡ others user w.tasks
  unfolding pause_found write_audit_log publish_event query_update_task_status_by_user_id
  pause_found_isolated (tool_error e) f = refl
  pause_found_isolated (tool_result (u, id, tid)) f = ground (
    arith,
    others-update_rows env update_task_status_by_user_id status_paused user tid
        (λ t. record t { status = status_paused; locked_by = none }) w (λ t. refl),
  )

  resume_found_isolated :
      (r : Reply (String × String × Uuid))
      → From user r
      → others user (resume_found env w r).0.tasks ≡ others user w.tasks
  unfolding resume_found write_audit_log publish_event query_reset_task_failure_count
  resume_found_isolated (tool_error e) f = refl
  resume_found_isolated (tool_result (u, id, tid)) f = ground (
    arith,
    others-update_rows env reset_task_failure_count status_active user tid
        (λ t. record t { status = status_active; failure_count = pos 0 }) w (λ t. refl),
  )

  delete_found_isolated :
      (r : Reply (String × String × Uuid))
      → From user r
      → others user (delete_found env w r).0.tasks ≡ others user w.tasks
  unfolding delete_found write_audit_log query_delete_task exec
  delete_found_isolated (tool_error e) f = refl
  delete_found_isolated (tool_result (u, id, tid)) f =
      ground (arith, others-delete tid user w.tasks)

-- Pausing, resuming and deleting leave the tasks of every other user as they are, in the table's
-- order, whether the tool answers with a result or an error and whatever calls fail. What the deletion
-- does through the foreign key of the tasks that wait for the deleted one is left out.
tools_isolated :
    (env : Env) (req : ToolRequest) (w : World) (user : String)
    → req.user_id ≡ some user
    → (others user (pause_task env req w).0.tasks ≡ others user w.tasks)
      × (others user (resume_task env req w).0.tasks ≡ others user w.tasks)
      × (others user (delete_task env req w).0.tasks ≡ others user w.tasks)
unfolding pause_task resume_task delete_task
tools_isolated env req w user caller =
    let from = own_task-From env req w user caller in
    (
      pause_found_isolated env w user _ from,
      resume_found_isolated env w user _ from,
      delete_found_isolated env w user _ from,
    )
