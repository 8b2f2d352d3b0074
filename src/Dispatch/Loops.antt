-- ===== src/Dispatch/Loops.antt =====
-- The loop condition of a native action.
use gsactions_mcp.Common.{String, ◌≡◌, none, arith}
use gsactions_mcp.Conditions.{evaluate_workflow_loop}
use gsactions_mcp.Dispatch.{
  execution_id_of, observe_task_outcome, publish_event, log_and_publish, trace_output,
}
use gsactions_mcp.Dispatch.Branches.{
  advance_or_pause, execution_state, native_traced, loops_again, native_succeeded,
}
use gsactions_mcp.Prompt.{query_get_workflow_state}
use gsactions_mcp.Store.{Task, World, Env}
use gsactions_mcp.Store.Queries.{exec, query_create_task_log}

module _ (env : Env) (t : Task) (result : String) (w : World) where
  states-native_traced : (native_traced env t result w).states ≡ w.states
  unfolding native_traced log_and_publish publish_event query_create_task_log trace_output exec
      observe_task_outcome
  states-native_traced = ground arith

  -- A native action that succeeded does not loop, whatever its loop condition says, if no state is
  -- stored under the id of this very run: it is scheduled anew or paused like one without a
  -- condition. The id of a run is made when it is dispatched, and nothing in between stores a state.
  native_succeeded_advances :
      query_get_workflow_state env t.id (execution_id_of env t) w ≡ none
      → native_succeeded env t result w ≡ advance_or_pause env t (native_traced env t result w)
  unfolding native_succeeded loops_again execution_state query_get_workflow_state
      evaluate_workflow_loop
  native_succeeded_advances fresh = ground (arith, states-native_traced)
