-- ===== src/Sampling/Kept.antt =====
-- A request and what follows from it leave the locks of the executions alone.
use gsactions_mcp.Answer.{Client}
use gsactions_mcp.Common.{
  String, ◌≡◌, refl, ◌∙◌, inl, inr, Bool, true, false, ◌||◌, not, Option, some, List, [], ◌∷◌,
  arith, if◌then◌else◌, Bool-cases, Option-cases,
}
use gsactions_mcp.Completion.{trigger_dependents, trigger_step, complete_task}
use gsactions_mcp.Conditions.{evaluate_branch_condition}
use gsactions_mcp.Dispatch.{observe_task_outcome, send_failure_email, log_and_publish}
use gsactions_mcp.Json.{Json, Fields, end, field}
use gsactions_mcp.RateLimit.{stored}
use gsactions_mcp.Sampling.{
  traced_input, traced_output, traced_error, count_failure, sampling_failed, store_update,
  apply_update, stored_response, advance_sampled, sampling_logged, sampling_succeeded, sample,
}
use gsactions_mcp.Sampling.Writes.{query_increment_task_failure_count, query_upsert_workflow_state}
use gsactions_mcp.Store.{Time, Task, TriggerMessage, World, Query, complete_task_query, Env}
use gsactions_mcp.Store.Queries.{
  status_allowed, exec, update_rows, query_create_execution_trace, query_update_task_next_run,
  query_update_task_status, query_complete_task, query_get_dependent_tasks_to_trigger,
}
use gsactions_mcp.Uuid.{Uuid, parse_uuid}

locks-if : (b : Bool) (v w : World) → v.locks ≡ w.locks → (if b then v else w).locks ≡ w.locks
locks-if true v w same = same
locks-if false v w same = refl

module _ (env : Env) where
  locks-update_rows :
      (q : Query) (status : String) (p : Task → Bool) (f : Task → Task) (w : World)
      → (update_rows env q status p f w).locks ≡ w.locks
  unfolding update_rows exec
  locks-update_rows q status p f w = ground arith

  locks-trigger_dependents :
      (output : String) (ds : List Task) (w : World)
      → (trigger_dependents env output ds w).locks ≡ w.locks
  unfolding trigger_dependents query_update_task_next_run
  locks-trigger_dependents output [] w = refl
  locks-trigger_dependents output (d ∷ ds) w =
      locks-trigger_dependents output ds _
      ∙ locks-if (evaluate_branch_condition d.branch_condition output) _ w
          (locks-update_rows _ _ _ _ w)

  locks-trigger_step :
      (user : String) (tid : Uuid) (w : World) → (trigger_step env user tid w).locks ≡ w.locks
  unfolding trigger_step
  locks-trigger_step user tid w =
      elim (Option-cases (query_get_dependent_tasks_to_trigger env tid w)) [
        | inl unread ↦ rw (unread, trigger_step) refl
        | inr (ds, found) ↦ rw (found, trigger_step) (locks-trigger_dependents _ ds w)
      ]

  locks-complete_task :
      (user task_id : String) (next : Time) (status : String) (w : World)
      → (complete_task env user task_id next status w).locks ≡ w.locks
  unfolding complete_task query_complete_task
  locks-complete_task user task_id next status w = elim (Option-cases (parse_uuid task_id)) [
    | inl bad ↦ rw (bad, complete_task) refl
    | inr (tid, good) ↦
        elim (Bool-cases (env.fails complete_task_query || not (status_allowed status))) [
          | inl fails ↦ rw (good, fails, complete_task) refl
          | inr done ↦
              rw (good, done, complete_task)
                (locks-trigger_step user tid (query_complete_task env tid next status w)
                  ∙ locks-update_rows _ _ _ _ w)
        ]
  ]

module _ (env : Env) (client : Client) (t : Task) where
  locks-traced_error :
      (execution step text : String) (w : World)
      → (traced_error env t execution step text w).locks ≡ w.locks
  unfolding traced_error query_create_execution_trace exec
  locks-traced_error execution step text w = ground arith

  locks-log_and_publish :
      (status : String) (error response : Option String) (detail : String × String)
      (more : List (String × String)) (w : World)
      → (log_and_publish env t status error response detail more w).locks ≡ w.locks
  unfolding log_and_publish
  locks-log_and_publish status error response detail more w = ground arith

  locks-count_failure : (w : World) → (count_failure env t w).locks ≡ w.locks
  unfolding count_failure query_increment_task_failure_count query_update_task_status update_rows
      exec send_failure_email
  locks-count_failure w = ground arith

  locks-sampling_failed :
      (execution error : String) (chained : Bool) (w : World)
      → (sampling_failed env t execution chained error w).locks ≡ w.locks
  unfolding sampling_failed observe_task_outcome
  locks-sampling_failed execution error chained w =
      rw (locks-count_failure, locks-log_and_publish, locks-traced_error) refl

  locks-query_upsert_workflow_state :
      (id : Uuid) (execution : String) (data_ : Json) (w : World)
      → (query_upsert_workflow_state env id execution data_ w).locks ≡ w.locks
  unfolding query_upsert_workflow_state exec
  locks-query_upsert_workflow_state id execution data_ w = ground arith

  locks-store_update :
      (id : Uuid) (execution : String) (update : Fields) (w : World) {v : World}
      → store_update env id execution update w ≡ some v
      → v.locks ≡ w.locks
  unfolding store_update query_upsert_workflow_state exec
  locks-store_update id execution end w found = ground arith
  locks-store_update id execution (field k x fs) w found = ground arith

  locks-apply_update :
      (id : Uuid) (execution response : String) (w : World) {v : World}
      → apply_update env client id execution response w ≡ some v
      → v.locks ≡ w.locks
  unfolding apply_update
  locks-apply_update id execution response w found = grind (arith, locks-store_update)

  locks-advance_sampled :
      (msg : TriggerMessage) (w : World) → (advance_sampled env t msg w).locks ≡ w.locks
  unfolding advance_sampled query_update_task_status
  locks-advance_sampled msg w = grind (arith, locks-complete_task, locks-update_rows)

  locks-sampling_logged :
      (msg : TriggerMessage) (chained : Bool) (response : String) (w : World)
      → (sampling_logged env t msg chained response w).locks ≡ w.locks
  unfolding sampling_logged traced_output query_create_execution_trace exec observe_task_outcome
  locks-sampling_logged msg chained response w = grind (arith, locks-log_and_publish)

  locks-sampling_succeeded :
      (msg : TriggerMessage) (chained : Bool) (res : Option Json) (w : World)
      → (sampling_succeeded env client t msg chained res w).locks ≡ w.locks
  unfolding sampling_succeeded
  locks-sampling_succeeded msg chained res w =
      let response = stored_response env client res in
      elim (Option-cases (apply_update env client t.id msg.execution_id response w)) [
        | inl panics ↦ rw (panics, sampling_succeeded) refl
        | inr (v, stored) ↦
            rw (stored, sampling_succeeded)
              (locks-advance_sampled msg (sampling_logged env t msg chained response v)
                ∙ locks-sampling_logged msg chained response v
                ∙ locks-apply_update t.id msg.execution_id response w stored)
      ]

  pub locks-sample :
      (msg : TriggerMessage) (prompt : String) (chained : Bool) (w : World)
      → (sample env client t msg prompt chained w).locks ≡ w.locks
  unfolding sample traced_input query_create_execution_trace exec
  locks-sample msg prompt chained w = grind (arith, locks-sampling_succeeded, locks-sampling_failed)
