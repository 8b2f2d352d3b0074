-- ===== src/Tests/Dispatching.antt =====
-- The theorems on dispatching, at concrete tasks.
use gsactions_mcp.Common.{◌≡◌, refl, true, none, some, [], ◌∷◌, arith}
use gsactions_mcp.Common.Int.{pos}
use gsactions_mcp.Completion.{complete_task}
use gsactions_mcp.Completion.Laws.{Affected, complete_task_affects}
use gsactions_mcp.Dispatch.Branches.{
  needs_approval, delivery_error, task_message, handle_dispatch_task,
}
use gsactions_mcp.Dispatch.Exhaustion.{fail_times, Parked, fail_times_exhausts}
use gsactions_mcp.Dispatch.Laws.{handle_dispatch_task_sends}
use gsactions_mcp.Schedule.{retry_limit}
use gsactions_mcp.Store.{Task, World, status_active}
use gsactions_mcp.Store.Laws.{row}
use gsactions_mcp.Store.Queries.{find_where}
use gsactions_mcp.Tests.{example_id, new_id, env_up, up_now, example_task, world_of}
use gsactions_mcp.Uuid.{uuid_eq, hex_value, hex_decode, strip_dashes, parse_uuid}

abbrev waiting : Task
waiting = record example_task { requires_approval = true }

here : row example_id (world_of example_task) ≡ some example_task
unfolding find_where uuid_eq
here = refl

handle_dispatch_task_sends_example :
    (handle_dispatch_task env_up example_task none (world_of example_task)).triggers
    ≡ task_message env_up example_task none (world_of example_task) ∷ []
unfolding needs_approval delivery_error
handle_dispatch_task_sends_example =
    handle_dispatch_task_sends env_up example_task none (world_of example_task)

fail_times_exhausts_example :
    Parked example_id "boom" 2 (fail_times env_up example_id "boom" 3 (world_of example_task))
fail_times_exhausts_example =
    fail_times_exhausts env_up "boom" 2 2 0 example_task (world_of example_task) up_now here refl
      (unfold retry_limit in refl) refl (omega arith)

-- A task that waits for the example.
abbrev waiting_child : Task
waiting_child = record example_task {
  id = new_id;
  status = status_active;
  depends_on_task_id = some example_id;
  trigger_on_completion = true;
}

abbrev world_of_two : World
world_of_two = record (world_of example_task) { tasks = example_task ∷ waiting_child ∷ [] }

complete_task_affects_example :
    Affected env_up "ann" status_active example_id new_id (pos 2000) world_of_two (
      complete_task env_up "ann" "00010203-0405-0607-0809-0a0b0c0d0e07"
        (pos 2000)
        status_active
        world_of_two)
unfolding uuid_eq
complete_task_affects_example =
    complete_task_affects env_up "ann" status_active example_id new_id (pos 2000) world_of_two refl
      "00010203-0405-0607-0809-0a0b0c0d0e07"
      (unfold parse_uuid strip_dashes hex_decode hex_value in refl)
