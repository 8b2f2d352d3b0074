-- ===== src/Dispatch/Rows.antt =====
-- Which calls of the dispatcher leave the table `tasks` alone, and what the others do to the row.
use gsactions_mcp.Common.{String, ◌≡◌, refl, ◌∙◌, Bool, true, Option, none, some, List, arith}
use gsactions_mcp.Common.Int.{ℤ}
use gsactions_mcp.Dispatch.{
  send_failure_email, log_and_publish, trace_error, trace_output, trace_input,
}
use gsactions_mcp.Store.{Time, Task, World, Query, Env, Up, status_active}
use gsactions_mcp.Store.Laws.{row, uuid_eq_refl, row-update_rows, owned_self, allowed_active}
use gsactions_mcp.Store.Queries.{
  status_allowed, exec, update_rows, query_move_to_dlq, query_update_task_next_run,
  query_update_task_status_and_failure_count,
}
use gsactions_mcp.Uuid.{Uuid}

module _ (env : Env) (t : Task) where
  pub tasks-log_and_publish :
      (status : String) (error response : Option String) (detail : String × String)
      (more : List (String × String)) (w : World)
      → (log_and_publish env t status error response detail more w).tasks ≡ w.tasks
  unfolding log_and_publish
  tasks-log_and_publish status error response detail more w = ground arith

  pub tasks-trace_error :
      (step message : String) (w : World) → (trace_error env t step message w).tasks ≡ w.tasks
  unfolding trace_error exec
  tasks-trace_error step message w = ground arith

  pub tasks-trace_output :
      (step output : String) (w : World) → (trace_output env t step output w).tasks ≡ w.tasks
  unfolding trace_output exec
  tasks-trace_output step output w = ground arith

  pub tasks-trace_input :
      (step input : String) (w : World) → (trace_input env t step input w).tasks ≡ w.tasks
  unfolding trace_input exec
  tasks-trace_input step input w = ground arith

module _ (env : Env) where
  pub tasks-send_failure_email :
      (user name : String) (w : World) → (send_failure_email env user name w).tasks ≡ w.tasks
  unfolding send_failure_email
  tasks-send_failure_email user name w = ground arith

  pub tasks-query_move_to_dlq :
      (id : Uuid) (message : String) (w : World)
      → (query_move_to_dlq env id message w).tasks ≡ w.tasks
  unfolding query_move_to_dlq exec
  tasks-query_move_to_dlq id message w = ground arith

module _ (env : Env) (up : Up env) (t : Task) (w : World) (here : row t.id w ≡ some t) where
  -- A statement on the row of the task finds it, if its condition holds of the row.
  pub row_updated :
      (q : Query) (status : String) (p : Task → Bool) (f : Task → Task)
      → ((s : Task) → (f s).id ≡ s.id)
      → status_allowed status ≡ true
      → p t ≡ true
      → row t.id (update_rows env q status p f w) ≡ some (f t)
  row_updated q status p f h allowed holds =
      row-update_rows env q status p f t.id w h (up q) allowed ∙ rw (here, holds)

  pub row-query_update_task_next_run :
      (next : Time)
      → row t.id (query_update_task_next_run env status_active next t.id w)
        ≡ some (record t { status = status_active; locked_by = none; next_run = next })
  unfolding query_update_task_next_run
  row-query_update_task_next_run next =
      row_updated _ _ _ _ (λ s. refl) allowed_active (uuid_eq_refl t.id)

  pub row-query_update_task_status_and_failure_count :
      (status : String) (failures retries : ℤ)
      → status_allowed status ≡ true
      → row t.id
          (query_update_task_status_and_failure_count env status failures retries t.id t.user_id w)
        ≡ some (record t {
          status = status;
          locked_by = none;
          failure_count = failures;
          retry_count = retries;
        })
  unfolding query_update_task_status_and_failure_count
  row-query_update_task_status_and_failure_count status failures retries allowed =
      row_updated _ _ _ _ (λ s. refl) allowed (owned_self t)
