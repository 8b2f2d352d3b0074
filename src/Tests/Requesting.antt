-- ===== src/Tests/Requesting.antt =====
-- The theorems on the REST handlers, at concrete requests of the user "ann".
use gsactions_mcp.Common.{String, ◌≡◌, refl, true, none, some, [], ◌∷◌, nat_eq, if◌then◌else◌, All}
use gsactions_mcp.Json.{object, end}
use gsactions_mcp.Rest.{
  Answered, must_parse_uuid, optional_uuid, has_row, reference_ok, api_pause_task, api_resume_task,
  api_delete_task, LinkTaskRequest, api_link_task,
}
use gsactions_mcp.Rest.Approvals.{api_approve_task, api_deny_task}
use gsactions_mcp.Rest.Isolated.{handlers_isolated}
use gsactions_mcp.Rest.Malformed.{api_link_task_malformed}
use gsactions_mcp.Rest.Restored.{api_restore_task_version-api_update_task}
use gsactions_mcp.Rest.Versions.{
  UpdateTaskRequest, update_code, update_parsed, api_update_task, api_restore_task_version,
}
use gsactions_mcp.Store.{Task, Env, Up}
use gsactions_mcp.Store.Laws.{row}
use gsactions_mcp.Store.Queries.{find_where}
use gsactions_mcp.Tests.{example_id, new_id, env_up, up_now, example_task, world_of}
use gsactions_mcp.Tools.Isolation.{others}
use gsactions_mcp.Uuid.{uuid_eq, hex_value, hex_decode, strip_dashes, parse_uuid}

abbrev path_text : String
path_text = "00010203-0405-0607-0809-0a0b0c0d0e07"

abbrev link_request : LinkTaskRequest
link_request = record { depends_on_task_id = "not-an-id"; trigger_on_completion = true }

abbrev change_request : UpdateTaskRequest
change_request = record {
  agent_prompt = "goodbye";
  missed_task_policy = "skip";
  ui_coordinates = some (object end);
  depends_on_task_id = "";
  trigger_on_completion = true;
  branch_condition = none;
  loop_condition = none;
  swarm_config = none;
}

handlers_isolated_example :
    All
      (λ (r : Answered). others "ann" r.0.tasks ≡ others "ann" (world_of example_task).tasks)
      (api_pause_task env_up "ann" path_text (world_of example_task)
        ∷ api_resume_task env_up "ann" path_text (world_of example_task)
        ∷ api_delete_task env_up "ann" path_text (world_of example_task)
        ∷ api_link_task env_up "ann" path_text (some link_request) (world_of example_task)
        ∷ api_update_task env_up "ann" path_text (some change_request) (world_of example_task)
        ∷ api_restore_task_version env_up "ann" path_text path_text (world_of example_task)
        ∷ api_approve_task env_up (some "ann") path_text (world_of example_task)
        ∷ api_deny_task env_up (some "ann") path_text (world_of example_task)
        ∷ [])
handlers_isolated_example =
    handlers_isolated env_up "ann" path_text path_text (some link_request) (some change_request)
      (world_of example_task)

-- A task that waits for another one.
abbrev linked_task : Task
linked_task = record example_task { depends_on_task_id = some new_id }

api_link_task_malformed_example :
    ((api_link_task env_up "ann" path_text (some link_request) (world_of linked_task)).1
      ≡ 400 ∷ 200 ∷ [])
    × (row example_id
          (api_link_task env_up "ann" path_text (some link_request) (world_of linked_task)).0
        ≡ some (record linked_task { depends_on_task_id = none; trigger_on_completion = true }))
unfolding find_where uuid_eq parse_uuid strip_dashes hex_decode hex_value
api_link_task_malformed_example =
    api_link_task_malformed env_up up_now linked_task path_text (world_of linked_task) refl refl
      refl link_request refl refl

-- An environment whose version ids differ.
abbrev env_versions : Env
env_versions = record env_up { fresh_version_id = λ n. if nat_eq n 0 then example_id else new_id }

abbrev up_versions : Up env_versions
up_versions = λ q. refl

api_restore_task_version-api_update_task_example :
    ((api_restore_task_version env_versions "ann" path_text path_text
        (api_update_task env_versions "ann" path_text
          (some change_request)
          (world_of example_task)).0).1
      ≡ 200 ∷ [])
    × (row example_id
          (api_restore_task_version env_versions "ann" path_text path_text
            (api_update_task env_versions "ann" path_text
              (some change_request)
              (world_of example_task)).0).0
        ≡ some (record example_task { ui_coordinates = some (object end) }))
unfolding find_where uuid_eq parse_uuid strip_dashes hex_decode hex_value api_update_task
    update_parsed update_code has_row reference_ok must_parse_uuid optional_uuid
api_restore_task_version-api_update_task_example =
    api_restore_task_version-api_update_task env_versions up_versions example_task
      (world_of example_task) refl path_text path_text change_request refl refl refl refl refl refl
