-- ===== src/Dispatch/States.antt =====
-- Where a dispatch leaves the row of its task.
use gsactions_mcp.Common.{◌==◌, ◌≡◌, refl, ap, ◌∙◌, true, false, Option, none, some, [], ◌∷◌, arith}
use gsactions_mcp.Common.Int.{◌+ℤ◌}
use gsactions_mcp.Dispatch.{execution_id_of, observe_task_outcome, publish_event, log_and_publish}
use gsactions_mcp.Dispatch.Branches.{
  needs_approval, pause_for_approval, advance_or_pause, miss_task, handle_dispatch_task,
}
use gsactions_mcp.Dispatch.Rows.{tasks-log_and_publish, row_updated, row-query_update_task_next_run}
use gsactions_mcp.Json.{Fields, unmarshal_map}
use gsactions_mcp.Schedule.{minute, calculate_next_run}
use gsactions_mcp.Store.{Time, Task, World, Env, Up, status_active, status_paused}
use gsactions_mcp.Store.Laws.{row, find-update_where, owned_self, allowed_paused}
use gsactions_mcp.Store.Queries.{
  owned, update_rows, query_update_task_status, query_update_task_approval_status,
}

abbrev next_run_in : Env → Task → Option Fields → Option Time
next_run_in env t none = none
next_run_in env t (some config) = calculate_next_run env t.trigger_type config env.now

-- The next run that the task's trigger gives, if it gives one.
abbrev pub next_run_of : Env → Task → Option Time
next_run_of env t = next_run_in env t (unmarshal_map t.trigger_config)

advance_or_pause-none :
    (env : Env) (t : Task) (w : World)
    → next_run_of env t ≡ none
    → advance_or_pause env t w ≡ query_update_task_status env status_paused t.id "" w
unfolding advance_or_pause
advance_or_pause-none env t w h = ground arith

-- No row belongs to nobody, so the update that names no user finds none.
row-pause_nobody :
    (env : Env) (t : Task) (w : World)
    → row t.id w ≡ some t
    → (t.user_id == "") ≡ false
    → row t.id (query_update_task_status env status_paused t.id "" w) ≡ row t.id w
unfolding query_update_task_status update_rows
row-pause_nobody env t w here named = ground (
  arith,
  find-update_where t.id (owned t.id "")
      (λ s. record s { status = status_paused; locked_by = none }) w.tasks (λ s. refl),
)

-- The state after the log entry of a missed task.
abbrev missed_log : Env → Task → World → World
missed_log env t w =
    log_and_publish env t "missed" (some "user offline") none ("error_message", "user offline")
      (("execution_id", execution_id_of env t) ∷ []) (observe_task_outcome "missed" w)

row-missed_log :
    (env : Env) (t : Task) (w : World)
    → row t.id w ≡ some t
    → row t.id (missed_log env t w) ≡ some t
unfolding observe_task_outcome
row-missed_log env t w here = rw tasks-log_and_publish here

module _ (env : Env) (t : Task) (payload : Option Fields) (w : World) where
  -- A task that waits for an approval is paused: its row says pending and paused and has no lock, and
  -- is otherwise as it was. This is for a task whose row is the one claimed, and calls that succeed.
  handle_dispatch_task_pauses :
      Up env
      → row t.id w ≡ some t
      → needs_approval t ≡ true
      → row t.id (handle_dispatch_task env t payload w)
        ≡ some (record t {
          last_approval_status = "pending";
          status = status_paused;
          locked_by = none;
        })
  unfolding handle_dispatch_task pause_for_approval publish_event query_update_task_approval_status
  handle_dispatch_task_pauses up here gate = rw gate (
      row_updated env up t (observe_task_outcome "approval_required" w)
        (unfold observe_task_outcome in here) _ _ _ _ (λ s. refl) allowed_paused (owned_self t))

  -- A task that is missed under the policy run_immediately is active again, without a lock, and due
  -- one minute from now. This is for a task whose row is the one claimed, and calls that succeed.
  handle_dispatch_task_reruns :
      Up env
      → row t.id w ≡ some t
      → needs_approval t ≡ false
      → env.is_online t.user_id ≡ false
      → t.missed_task_policy ≡ "run_immediately"
      → row t.id (handle_dispatch_task env t payload w)
        ≡ some (record t { status = status_active; locked_by = none; next_run = env.now +ℤ minute })
  unfolding handle_dispatch_task miss_task
  handle_dispatch_task_reruns up here gate offline policy =
      rw (gate, offline, ap (λ s. s == "run_immediately") policy)
        (row-query_update_task_next_run env up t (missed_log env t w) (row-missed_log env t w here)
          _)

  -- A missed task whose trigger gives no next run stays as it was claimed: the row is unchanged, so
  -- the task is still processing and locked, although every call succeeds. The source means to pause
  -- it, but its update names no user.
  pub handle_dispatch_task_stuck :
      row t.id w ≡ some t
      → (t.user_id == "") ≡ false
      → needs_approval t ≡ false
      → env.is_online t.user_id ≡ false
      → (t.missed_task_policy == "run_immediately") ≡ false
      → next_run_of env t ≡ none
      → row t.id (handle_dispatch_task env t payload w) ≡ some t
  unfolding handle_dispatch_task miss_task
  handle_dispatch_task_stuck here named gate offline policy no_next =
      rw (gate, offline, policy, advance_or_pause-none env t (missed_log env t w) no_next)
        (row-pause_nobody env t (missed_log env t w) (row-missed_log env t w here) named
          ∙ row-missed_log env t w here)
