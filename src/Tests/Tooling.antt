-- ===== src/Tests/Tooling.antt =====
-- The theorems on the tools, at concrete requests.
use gsactions_mcp.Common.{◌≤◌, refl, false, none, some, List, [], ◌∷◌, arith}
use gsactions_mcp.Common.Int.{pos}
use gsactions_mcp.Json.{string, object, end, field}
use gsactions_mcp.Quota.{quota_limit, count_tasks}
use gsactions_mcp.Store.{Task, World, status_active}
use gsactions_mcp.Tests.{new_id, env_up, example_task, world_of}
use gsactions_mcp.Tools.{ToolRequest}
use gsactions_mcp.Tools.Create.{create_task}
use gsactions_mcp.Tools.Quotas.{create_task_within_quota}
use gsactions_mcp.Transfer.{TransferTask}

abbrev request : ToolRequest
request = record {
  arguments = some (field "id" (string "00010203-0405-0607-0809-0a0b0c0d0e07") end);
  user_id = some "ann";
  user_tier = some "free";
}

-- A task on a date.
abbrev creation : ToolRequest
creation = record request {
  arguments = some (
      field "name" (string "report") (
        field "trigger_type" (string "date") (
          field "trigger_config" (object (field "date" (string "2030-01-01T00:00:00Z") end)) end)));
}

create_task_within_quota_example :
    count_tasks "ann" (create_task env_up (λ s. none) creation (world_of example_task)).0.tasks
    ≤ quota_limit "free"
create_task_within_quota_example =
    create_task_within_quota env_up (λ s. none) creation (world_of example_task) "ann" refl
      (unfold count_tasks quota_limit in omega arith)

abbrev bundle : List TransferTask
bundle =
    record {
      legacy_id = "1";
      name = "copy";
      trigger_type = "date";
      trigger_config = some (object (field "date" (string "2030-01-01T00:00:00Z") end));
      agent_prompt = "";
      missed_task_policy = "";
      requires_approval = false;
      depends_on_legacy_id = "";
      trigger_on_completion = false;
      task_type = "";
      native_code = "";
      branch_condition = none;
      swarm_config = none;
    }
    ∷ []

abbrev dated : Task
dated = record example_task {
  trigger_type = "date";
  trigger_config = some (object (field "date" (string "2030-01-01T00:00:00Z") end));
}

abbrev copied : World
copied = record (world_of dated) {
  tasks =
      record dated {
        id = new_id;
        status = status_active;
        locked_by = none;
        next_run = pos 5000;
        max_retries = pos 0;
        backoff_strategy = "linear";
      }
      ∷ dated
      ∷ [];
}
