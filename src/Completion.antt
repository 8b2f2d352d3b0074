-- ===== src/Completion.antt =====
-- cmd/server/scheduler.go completeTask: the finished task is scheduled anew, and the tasks that wait
-- for it and whose branch condition holds are made due.
pub mod Laws
use gsactions_mcp.Common.{String, ◌||◌, not, none, some, List, [], ◌∷◌, if◌then◌else◌}
use gsactions_mcp.Conditions.{evaluate_branch_condition}
use gsactions_mcp.Json.{text_or_empty}
use gsactions_mcp.Store.{Time, Task, World, complete_task_query, Env, status_active}
use gsactions_mcp.Store.Queries.{
  status_allowed, query_get_task_output, query_update_task_next_run, query_complete_task,
  query_get_dependent_tasks_to_trigger,
}
use gsactions_mcp.Uuid.{Uuid, parse_uuid}

-- The loop over the dependents.
unfoldable pub trigger_dependents : Env → String → List Task → World → World
trigger_dependents env output [] w = w
trigger_dependents env output (t ∷ ts) w = trigger_dependents env output ts (
    if evaluate_branch_condition t.branch_condition output
    then query_update_task_next_run env status_active env.now t.id w
    else w)

unfoldable pub trigger_step : Env → String → Uuid → World → World
trigger_step env user tid w = elim (query_get_dependent_tasks_to_trigger env tid w) [
  | none ↦ w
  | some dependents ↦
      trigger_dependents env (text_or_empty (query_get_task_output env tid user w)) dependents w
]

-- completeTask; its variadic status is active unless it is given.
unfoldable pub complete_task : Env → String → String → Time → String → World → World
complete_task env user task_id next_run status w = elim (parse_uuid task_id) [
  | none ↦ w
  | some tid ↦
      let completed = query_complete_task env tid next_run status w in
      if env.fails complete_task_query || not (status_allowed status)
      then w
      else trigger_step env user tid completed
]
