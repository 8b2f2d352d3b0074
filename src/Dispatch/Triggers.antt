-- ===== src/Dispatch/Triggers.antt =====
-- The calls that leave the messages to the nodes alone, whatever fails.
use gsactions_mcp.Common.{
  String, ◌≡◌, refl, ◌∙◌, inl, inr, ◌||◌, not, Option, List, [], ◌∷◌, arith, if◌then◌else◌,
  Bool-cases, Option-cases,
}
use gsactions_mcp.Common.Int.{ℤ, ltb_ℤ}
use gsactions_mcp.Completion.{trigger_dependents, trigger_step, complete_task}
use gsactions_mcp.Conditions.{evaluate_branch_condition}
use gsactions_mcp.Dispatch.{
  send_failure_email, log_and_publish, trace_error, trace_output, trace_input,
}
use gsactions_mcp.Dispatch.Retry.{give_up, schedule_retry, retry_or_give_up}
use gsactions_mcp.Schedule.{backoff_minutes, next_retry, retry_limit}
use gsactions_mcp.Store.{Time, Task, World, complete_task_query, Env, status_active}
use gsactions_mcp.Store.Queries.{
  status_allowed, exec, update_rows, query_move_to_dlq, query_update_task_next_run,
  query_update_task_status, query_update_task_status_and_failure_count,
  query_update_task_approval_status, query_complete_task, query_get_dependent_tasks_to_trigger,
}
use gsactions_mcp.Uuid.{Uuid, parse_uuid}

module _ (env : Env) where
  pub triggers-query_update_task_next_run :
      (status : String) (next : Time) (id : Uuid) (w : World)
      → (query_update_task_next_run env status next id w).triggers ≡ w.triggers
  unfolding query_update_task_next_run update_rows
  triggers-query_update_task_next_run status next id w = ground arith

  pub triggers-query_update_task_status :
      (status : String) (id : Uuid) (user : String) (w : World)
      → (query_update_task_status env status id user w).triggers ≡ w.triggers
  unfolding query_update_task_status update_rows
  triggers-query_update_task_status status id user w = ground arith

  pub triggers-query_update_task_status_and_failure_count :
      (status : String) (a b : ℤ) (id : Uuid) (user : String) (w : World)
      → (query_update_task_status_and_failure_count env status a b id user w).triggers ≡ w.triggers
  unfolding query_update_task_status_and_failure_count update_rows
  triggers-query_update_task_status_and_failure_count status a b id user w = ground arith

  pub triggers-query_update_task_approval_status :
      (approval status : String) (id : Uuid) (user : String) (w : World)
      → (query_update_task_approval_status env approval status id user w).triggers ≡ w.triggers
  unfolding query_update_task_approval_status update_rows
  triggers-query_update_task_approval_status approval status id user w = ground arith

  pub triggers-query_complete_task :
      (id : Uuid) (next : Time) (status : String) (w : World)
      → (query_complete_task env id next status w).triggers ≡ w.triggers
  unfolding query_complete_task update_rows
  triggers-query_complete_task id next status w = ground arith

  pub triggers-query_move_to_dlq :
      (id : Uuid) (message : String) (w : World)
      → (query_move_to_dlq env id message w).triggers ≡ w.triggers
  unfolding query_move_to_dlq exec
  triggers-query_move_to_dlq id message w = ground arith

  pub triggers-send_failure_email :
      (user name : String) (w : World) → (send_failure_email env user name w).triggers ≡ w.triggers
  unfolding send_failure_email
  triggers-send_failure_email user name w = ground arith

  pub triggers-trigger_dependents :
      (output : String) (ts : List Task) (w : World)
      → (trigger_dependents env output ts w).triggers ≡ w.triggers
  unfolding trigger_dependents
  triggers-trigger_dependents output [] w = refl
  triggers-trigger_dependents output (t ∷ ts) w =
      let c = evaluate_branch_condition t.branch_condition output in
      let v = query_update_task_next_run env status_active env.now t.id w in
      triggers-trigger_dependents output ts (if c then v else w) ∙ elim (Bool-cases c) [
        | inl e ↦ rw e (triggers-query_update_task_next_run status_active env.now t.id w)
        | inr e ↦ rw e
      ]

  triggers-trigger_step :
      (user : String) (tid : Uuid) (w : World) → (trigger_step env user tid w).triggers ≡ w.triggers
  unfolding trigger_step
  triggers-trigger_step user tid w =
      elim (Option-cases (query_get_dependent_tasks_to_trigger env tid w)) [
        | inl e ↦ rw (e, trigger_step)
        | inr (ts, e) ↦ rw (e, trigger_step) (triggers-trigger_dependents _ ts w)
      ]

  pub triggers-complete_task :
      (user id : String) (next : Time) (status : String) (w : World)
      → (complete_task env user id next status w).triggers ≡ w.triggers
  unfolding complete_task
  triggers-complete_task user id next status w = elim (Option-cases (parse_uuid id)) [
    | inl e ↦ rw (e, complete_task)
    | inr (tid, e) ↦
        rw (e, complete_task)
          (elim (Bool-cases (env.fails complete_task_query || not (status_allowed status))) [
            | inl c ↦ rw c
            | inr c ↦ rw c (
                triggers-trigger_step user tid (query_complete_task env tid next status w)
                ∙ triggers-query_complete_task tid next status w)
          ])
  ]

module _ (env : Env) (t : Task) where
  pub triggers-trace_error :
      (step message : String) (w : World) → (trace_error env t step message w).triggers ≡ w.triggers
  unfolding trace_error exec
  triggers-trace_error step message w = ground arith

  pub triggers-trace_output :
      (step message : String) (w : World)
      → (trace_output env t step message w).triggers ≡ w.triggers
  unfolding trace_output exec
  triggers-trace_output step message w = ground arith

  pub triggers-trace_input :
      (step message : String) (w : World) → (trace_input env t step message w).triggers ≡ w.triggers
  unfolding trace_input exec
  triggers-trace_input step message w = ground arith

  pub triggers-log_and_publish :
      (status : String) (error response : Option String) (detail : String × String)
      (more : List (String × String)) (w : World)
      → (log_and_publish env t status error response detail more w).triggers ≡ w.triggers
  unfolding log_and_publish
  triggers-log_and_publish status error response detail more w = ground arith

  pub triggers-give_up :
      (message : String) (retries : ℤ) (w : World)
      → (give_up env t message retries w).triggers ≡ w.triggers
  unfolding give_up
  triggers-give_up message retries w = simp (
    triggers-send_failure_email, triggers-query_move_to_dlq,
    triggers-query_update_task_status_and_failure_count,
  )

  pub triggers-schedule_retry :
      (retries : ℤ) (w : World) → (schedule_retry env t retries w).triggers ≡ w.triggers
  unfolding schedule_retry
  triggers-schedule_retry retries w =
      elim (Option-cases (backoff_minutes t.backoff_strategy retries)) [
        | inl e ↦ rw (e, schedule_retry)
        | inr (m, e) ↦
            rw (e, schedule_retry)
              (simp (
                triggers-query_update_task_next_run,
                triggers-query_update_task_status_and_failure_count,
              ))
      ]

  pub triggers-retry_or_give_up :
      (message : String) (w : World) → (retry_or_give_up env t message w).triggers ≡ w.triggers
  unfolding retry_or_give_up
  triggers-retry_or_give_up message w =
      elim (Bool-cases (ltb_ℤ (retry_limit t.max_retries) (next_retry t.retry_count))) [
        | inl e ↦ rw e (triggers-give_up message (next_retry t.retry_count) w)
        | inr e ↦ rw e (triggers-schedule_retry (next_retry t.retry_count) w)
      ]

pub ruleset triggers_kept = (
  triggers-query_update_task_next_run, triggers-query_update_task_status,
  triggers-query_update_task_status_and_failure_count, triggers-query_update_task_approval_status,
  triggers-query_complete_task, triggers-query_move_to_dlq, triggers-send_failure_email,
  triggers-trace_error, triggers-trace_output, triggers-trace_input, triggers-log_and_publish,
  triggers-give_up, triggers-schedule_retry, triggers-retry_or_give_up, triggers-trigger_dependents,
  triggers-complete_task,
)
