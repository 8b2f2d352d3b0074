-- ===== src/Dispatch/Outcomes.antt =====
-- The calls that leave the counters of outcomes alone, whatever fails.
use gsactions_mcp.Common.{
  String, ◌≡◌, refl, ◌∙◌, inl, inr, ◌||◌, not, Option, List, [], ◌∷◌, arith, if◌then◌else◌,
  Bool-cases, Option-cases,
}
use gsactions_mcp.Common.Int.{ℤ, ltb_ℤ}
use gsactions_mcp.Completion.{trigger_dependents, trigger_step, complete_task}
use gsactions_mcp.Conditions.{evaluate_branch_condition}
use gsactions_mcp.Dispatch.{
  send_failure_email, log_and_publish, trace_error, trace_output, trace_input,
}
use gsactions_mcp.Dispatch.Retry.{give_up, schedule_retry, retry_or_give_up}
use gsactions_mcp.Schedule.{backoff_minutes, next_retry, retry_limit}
use gsactions_mcp.Store.{Time, Task, World, complete_task_query, Env, status_active}
use gsactions_mcp.Store.Queries.{
  status_allowed, exec, update_rows, query_move_to_dlq, query_update_task_next_run,
  query_update_task_status, query_update_task_status_and_failure_count,
  query_update_task_approval_status, query_complete_task, query_get_dependent_tasks_to_trigger,
}
use gsactions_mcp.Uuid.{Uuid, parse_uuid}

module _ (env : Env) where
  pub outcomes-query_update_task_next_run :
      (status : String) (next : Time) (id : Uuid) (w : World)
      → (query_update_task_next_run env status next id w).outcomes ≡ w.outcomes
  unfolding query_update_task_next_run update_rows
  outcomes-query_update_task_next_run status next id w = ground arith

  pub outcomes-query_update_task_status :
      (status : String) (id : Uuid) (user : String) (w : World)
      → (query_update_task_status env status id user w).outcomes ≡ w.outcomes
  unfolding query_update_task_status update_rows
  outcomes-query_update_task_status status id user w = ground arith

  pub outcomes-query_update_task_status_and_failure_count :
      (status : String) (a b : ℤ) (id : Uuid) (user : String) (w : World)
      → (query_update_task_status_and_failure_count env status a b id user w).outcomes ≡ w.outcomes
  unfolding query_update_task_status_and_failure_count update_rows
  outcomes-query_update_task_status_and_failure_count status a b id user w = ground arith

  pub outcomes-query_update_task_approval_status :
      (approval status : String) (id : Uuid) (user : String) (w : World)
      → (query_update_task_approval_status env approval status id user w).outcomes ≡ w.outcomes
  unfolding query_update_task_approval_status update_rows
  outcomes-query_update_task_approval_status approval status id user w = ground arith

  pub outcomes-query_complete_task :
      (id : Uuid) (next : Time) (status : String) (w : World)
      → (query_complete_task env id next status w).outcomes ≡ w.outcomes
  unfolding query_complete_task update_rows
  outcomes-query_complete_task id next status w = ground arith

  pub outcomes-query_move_to_dlq :
      (id : Uuid) (message : String) (w : World)
      → (query_move_to_dlq env id message w).outcomes ≡ w.outcomes
  unfolding query_move_to_dlq exec
  outcomes-query_move_to_dlq id message w = ground arith

  pub outcomes-send_failure_email :
      (user name : String) (w : World) → (send_failure_email env user name w).outcomes ≡ w.outcomes
  unfolding send_failure_email
  outcomes-send_failure_email user name w = ground arith

  pub outcomes-trigger_dependents :
      (output : String) (ts : List Task) (w : World)
      → (trigger_dependents env output ts w).outcomes ≡ w.outcomes
  unfolding trigger_dependents
  outcomes-trigger_dependents output [] w = refl
  outcomes-trigger_dependents output (t ∷ ts) w =
      let c = evaluate_branch_condition t.branch_condition output in
      let v = query_update_task_next_run env status_active env.now t.id w in
      outcomes-trigger_dependents output ts (if c then v else w) ∙ elim (Bool-cases c) [
        | inl e ↦ rw e (outcomes-query_update_task_next_run status_active env.now t.id w)
        | inr e ↦ rw e
      ]

  outcomes-trigger_step :
      (user : String) (tid : Uuid) (w : World) → (trigger_step env user tid w).outcomes ≡ w.outcomes
  unfolding trigger_step
  outcomes-trigger_step user tid w =
      elim (Option-cases (query_get_dependent_tasks_to_trigger env tid w)) [
        | inl e ↦ rw (e, trigger_step)
        | inr (ts, e) ↦ rw (e, trigger_step) (outcomes-trigger_dependents _ ts w)
      ]

  pub outcomes-complete_task :
      (user id : String) (next : Time) (status : String) (w : World)
      → (complete_task env user id next status w).outcomes ≡ w.outcomes
  unfolding complete_task
  outcomes-complete_task user id next status w = elim (Option-cases (parse_uuid id)) [
    | inl e ↦ rw (e, complete_task)
    | inr (tid, e) ↦
        rw (e, complete_task)
          (elim (Bool-cases (env.fails complete_task_query || not (status_allowed status))) [
            | inl c ↦ rw c
            | inr c ↦ rw c (
                outcomes-trigger_step user tid (query_complete_task env tid next status w)
                ∙ outcomes-query_complete_task tid next status w)
          ])
  ]

module _ (env : Env) (t : Task) where
  pub outcomes-trace_error :
      (step message : String) (w : World) → (trace_error env t step message w).outcomes ≡ w.outcomes
  unfolding trace_error exec
  outcomes-trace_error step message w = ground arith

  pub outcomes-trace_output :
      (step message : String) (w : World)
      → (trace_output env t step message w).outcomes ≡ w.outcomes
  unfolding trace_output exec
  outcomes-trace_output step message w = ground arith

  pub outcomes-trace_input :
      (step message : String) (w : World) → (trace_input env t step message w).outcomes ≡ w.outcomes
  unfolding trace_input exec
  outcomes-trace_input step message w = ground arith

  pub outcomes-log_and_publish :
      (status : String) (error response : Option String) (detail : String × String)
      (more : List (String × String)) (w : World)
      → (log_and_publish env t status error response detail more w).outcomes ≡ w.outcomes
  unfolding log_and_publish
  outcomes-log_and_publish status error response detail more w = ground arith

  pub outcomes-give_up :
      (message : String) (retries : ℤ) (w : World)
      → (give_up env t message retries w).outcomes ≡ w.outcomes
  unfolding give_up
  outcomes-give_up message retries w = simp (
    outcomes-send_failure_email, outcomes-query_move_to_dlq,
    outcomes-query_update_task_status_and_failure_count,
  )

  pub outcomes-schedule_retry :
      (retries : ℤ) (w : World) → (schedule_retry env t retries w).outcomes ≡ w.outcomes
  unfolding schedule_retry
  outcomes-schedule_retry retries w =
      elim (Option-cases (backoff_minutes t.backoff_strategy retries)) [
        | inl e ↦ rw (e, schedule_retry)
        | inr (m, e) ↦
            rw (e, schedule_retry)
              (simp (
                outcomes-query_update_task_next_run,
                outcomes-query_update_task_status_and_failure_count,
              ))
      ]

  pub outcomes-retry_or_give_up :
      (message : String) (w : World) → (retry_or_give_up env t message w).outcomes ≡ w.outcomes
  unfolding retry_or_give_up
  outcomes-retry_or_give_up message w =
      elim (Bool-cases (ltb_ℤ (retry_limit t.max_retries) (next_retry t.retry_count))) [
        | inl e ↦ rw e (outcomes-give_up message (next_retry t.retry_count) w)
        | inr e ↦ rw e (outcomes-schedule_retry (next_retry t.retry_count) w)
      ]

pub ruleset outcomes_kept = (
  outcomes-query_update_task_next_run, outcomes-query_update_task_status,
  outcomes-query_update_task_status_and_failure_count, outcomes-query_update_task_approval_status,
  outcomes-query_complete_task, outcomes-query_move_to_dlq, outcomes-send_failure_email,
  outcomes-trace_error, outcomes-trace_output, outcomes-trace_input, outcomes-log_and_publish,
  outcomes-give_up, outcomes-schedule_retry, outcomes-retry_or_give_up, outcomes-trigger_dependents,
  outcomes-complete_task,
)
