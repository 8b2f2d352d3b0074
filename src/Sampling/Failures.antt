-- ===== src/Sampling/Failures.antt =====
-- What failed requests do to the row of a task.
use gsactions_mcp.Common.{
  String, ◌≡◌, refl, ◌∙◌, inl, inr, Bool, true, false, none, some, List, [], ◌∷◌, arith,
  if◌then◌else◌, Bool-cases,
}
use gsactions_mcp.Common.Int.{pos, ◌+ℤ◌, ltb_ℤ}
use gsactions_mcp.Dispatch.{observe_task_outcome, send_failure_email, log_and_publish}
use gsactions_mcp.Dispatch.RetryLaws.{row-tasks}
use gsactions_mcp.Dispatch.Rows.{tasks-log_and_publish, tasks-send_failure_email, row_updated}
use gsactions_mcp.Sampling.{traced_error, flag_text, count_failure, sampling_failed}
use gsactions_mcp.Sampling.Writes.{query_increment_task_failure_count}
use gsactions_mcp.Store.{
  Task, World, increment_task_failure_count, Env, Up, status_active, status_error,
}
use gsactions_mcp.Store.Laws.{
  row, find-update_where, owned_self, allowed_active, allowed_error, find_owned,
}
use gsactions_mcp.Store.Queries.{
  status_allowed, update_where, has_id, owned, find_where, exec, update_rows,
  query_create_execution_trace, query_update_task_status,
}

-- The row with the count raised.
abbrev counted : Task → Task
counted t = record t { failure_count = t.failure_count +ℤ pos 1 }

-- The row after a failed request.
abbrev pub once_more : Task → Task
once_more t = record t {
  status = if ltb_ℤ (t.failure_count +ℤ pos 1) (pos 3) then status_active else status_error;
  locked_by = none;
  failure_count = t.failure_count +ℤ pos 1;
}

module _ (env : Env) (up : Up env) (t : Task) where
  -- What the statement makes of the state, where it finds the row and the count fits its column.
  count_found :
      (w : World)
      → row t.id w ≡ some t
      → ltb_ℤ (pos 2147483647) (t.failure_count +ℤ pos 1) ≡ false
      → query_increment_task_failure_count env t.id t.user_id w ≡ (
        record w { tasks = update_where (owned t.id t.user_id) counted w.tasks },
        t.failure_count +ℤ pos 1,
      )
  unfolding query_increment_task_failure_count
  count_found w here fits =
      let found = find_owned t.id t.user_id w.tasks here refl in
      rw (found, up increment_task_failure_count, fits, query_increment_task_failure_count) refl

  row-count :
      (w : World)
      → row t.id w ≡ some t
      → find_where (has_id t.id) (update_where (owned t.id t.user_id) counted w.tasks)
        ≡ some (counted t)
  row-count w here =
      find-update_where t.id (owned t.id t.user_id) counted w.tasks (λ s. refl)
      ∙ rw (here, owned_self t)

  row-status :
      (status : String) (w : World)
      → status_allowed status ≡ true
      → row t.id w ≡ some (counted t)
      → row t.id (query_update_task_status env status t.id t.user_id w)
        ≡ some (record (counted t) { status = status; locked_by = none })
  unfolding query_update_task_status
  row-status status w allowed here =
      row_updated env up (counted t) w here _ _ _ _ (λ s. refl) allowed (owned_self (counted t))

  row-count_failure :
      (w : World)
      → row t.id w ≡ some t
      → ltb_ℤ (pos 2147483647) (t.failure_count +ℤ pos 1) ≡ false
      → row t.id (count_failure env t w) ≡ some (once_more t)
  unfolding count_failure
  row-count_failure w here fits =
      let after = row-count w here in
      elim (Bool-cases (ltb_ℤ (t.failure_count +ℤ pos 1) (pos 3))) [
        | inl few ↦
            rw (count_found w here fits, few, count_failure)
              (row-status status_active _ allowed_active after)
        | inr many ↦
            rw (count_found w here fits, many, count_failure, tasks-send_failure_email)
              (row-status status_error _ allowed_error after)
      ]

  same_row : (v w : World) → v.tasks ≡ w.tasks → row t.id w ≡ some t → row t.id v ≡ some t
  same_row v w same here = row-tasks t.id v w same ∙ here

  tasks-traced_error :
      (execution step text : String) (w : World)
      → (traced_error env t execution step text w).tasks ≡ w.tasks
  unfolding traced_error query_create_execution_trace exec
  tasks-traced_error execution step text w = ground arith

  dlq-count_failure : (w : World) → (count_failure env t w).dlq ≡ w.dlq
  unfolding count_failure query_increment_task_failure_count query_update_task_status update_rows
      exec send_failure_email
  dlq-count_failure w = ground arith

  dlq-logged :
      (execution error : String) (more : List (String × String)) (w : World)
      → (log_and_publish env t "failure"
          (some error)
          none
          ("error_message", error)
          more
          (traced_error env t execution "LLM Sampling Failed" error w)).dlq
        ≡ w.dlq
  unfolding log_and_publish traced_error query_create_execution_trace exec
  dlq-logged execution error more w = ground arith

  -- A sampling request that fails raises the failure count of the task's row by one and unlocks it:
  -- below three failures the task is active again at the same next_run, so it is due at once, and from
  -- the third on it is in error, whatever its max_retries is. Its retry count stays, and it is never
  -- put into the dead letter queue. This is for calls that succeed, a row that is found first by its
  -- id, and a count that is below the largest INT.
  pub row-sampling_failed :
      (execution error : String) (chained : Bool) (w : World)
      → row t.id w ≡ some t
      → ltb_ℤ (pos 2147483647) (t.failure_count +ℤ pos 1) ≡ false
      → (row t.id (sampling_failed env t execution chained error w) ≡ some (once_more t))
        × ((sampling_failed env t execution chained error w).dlq ≡ w.dlq)
  unfolding sampling_failed observe_task_outcome
  row-sampling_failed execution error chained w here fits =
      let traced =
        traced_error env t execution "LLM Sampling Failed" error
          (observe_task_outcome "execution_failure" w) in
      let logged =
        log_and_publish env t "failure" (some error) none ("error_message", error)
          (("chained", flag_text chained) ∷ []) traced in
      let same : logged.tasks ≡ w.tasks =
        tasks-log_and_publish env t "failure" (some error) none ("error_message", error)
          (("chained", flag_text chained) ∷ []) traced
        ∙ tasks-traced_error execution "LLM Sampling Failed" error
            (observe_task_outcome "execution_failure" w) in
      (
        row-count_failure logged (same_row logged w same here) fits,
        dlq-count_failure logged
            ∙ dlq-logged execution error (("chained", flag_text chained) ∷ [])
                (observe_task_outcome "execution_failure" w),
      )
