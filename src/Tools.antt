-- ===== src/Tools.antt =====
-- cmd/server/tools.go: the MCP tools that create, pause, resume and delete tasks.
pub mod Isolation
pub mod Create
pub mod Quotas
use gsactions_mcp.Common.{
  String, Bool, true, false, not, Option, none, some, [], ◌∷◌, if◌then◌else◌,
}
use gsactions_mcp.Dispatch.{publish_event}
use gsactions_mcp.Json.{Fields, get_field, as_string}
use gsactions_mcp.Store.{
  World, update_task_status_by_user_id, reset_task_failure_count, delete_task_query, Env,
  status_active, status_paused,
}
use gsactions_mcp.Store.Queries.{
  query_update_task_status_by_user_id, query_reset_task_failure_count, query_check_task_ownership,
  query_delete_task,
}
use gsactions_mcp.Uuid.{Uuid, parse_uuid}

-- What a tool is called with: its arguments, if they are a map, and what the request's context holds.
pub record ToolRequest : Type 0 where
  pub arguments : Option Fields
  pub user_id : Option String
  pub user_tier : Option String

-- A result, or the text of a tool error.
pub data Reply {ℓ} (A : Type ℓ) : Type ℓ where
  tool_result : A → Reply A
  tool_error : String → Reply A

-- A tool goes on with a result, and ends at the first error.
infixl 5 ◌>>=◌ ◌>>◌
abbrev pub ◌>>=◌ {ℓ κ} : {A : Type ℓ} {B : Type κ} → Reply A → (A → Reply B) → Reply B
tool_error e >>= rest = tool_error e
tool_result a >>= rest = rest a

abbrev pub ◌>>◌ {ℓ} : {B : Type ℓ} → Reply (Unit {0}) → Reply B → Reply B
first >> rest = first >>= λ _. rest

-- `v, ok := ...; if !ok { return error }`
abbrev pub require {ℓ} : {A : Type ℓ} → Option A → String → Reply A
require none e = tool_error e
require (some a) e = tool_result a

abbrev pub refuse_if : Bool → String → Reply (Unit {0})
refuse_if true e = tool_error e
refuse_if false e = tool_result tt

-- writeAuditLog; an error is only logged.
unfoldable pub write_audit_log : String → String → String → String → World → World
write_audit_log user action type id w = record w {
  audits =
      record { user_id = user; action = action; resource_type = type; resource_id = id } ∷ w.audits;
}

-- What the tools on one task begin with: the user, the id's text, and the id, which must be that of a
-- task of the user's.
unfoldable pub own_task : Env → ToolRequest → World → Reply (String × String × Uuid)
own_task env req w = do
  args ← require req.arguments "invalid arguments"
  user ← require req.user_id "unauthorized"
  id ← require (as_string (get_field "id" args)) "missing or invalid 'id'"
  tid ← require (parse_uuid id) "invalid task ID format"
  exists ← require (query_check_task_ownership env tid user w) "db error"
  refuse_if (not exists) "task not found"
  tool_result (user, id, tid)

-- The end of pause_task and resume_task: an event and an audit entry.
unfoldable status_changed : String → String → String → String → World → World
status_changed user id status action w =
    write_audit_log user action "task" id
      (publish_event user "task_status_changed" (("task_id", id) ∷ ("status", status) ∷ []) w)

unfoldable pub pause_found : Env → World → Reply (String × String × Uuid) → World × Reply String
unfolding status_changed
pause_found env w (tool_error e) = (w, tool_error e)
pause_found env w (tool_result (user, id, tid)) =
    if env.fails update_task_status_by_user_id then (w, tool_error "db error") else (
      status_changed user id status_paused "task.pause"
          (query_update_task_status_by_user_id env status_paused tid user w),
      tool_result status_paused,
    )

unfoldable pub pause_task : Env → ToolRequest → World → World × Reply String
pause_task env req w = pause_found env w (own_task env req w)

unfoldable pub resume_found : Env → World → Reply (String × String × Uuid) → World × Reply String
unfolding status_changed
resume_found env w (tool_error e) = (w, tool_error e)
resume_found env w (tool_result (user, id, tid)) =
    if env.fails reset_task_failure_count then (w, tool_error "db error") else (
      status_changed user id status_active "task.resume"
          (query_reset_task_failure_count env status_active tid user w),
      tool_result status_active,
    )

unfoldable pub resume_task : Env → ToolRequest → World → World × Reply String
resume_task env req w = resume_found env w (own_task env req w)

unfoldable pub delete_found : Env → World → Reply (String × String × Uuid) → World × Reply String
delete_found env w (tool_error e) = (w, tool_error e)
delete_found env w (tool_result (user, id, tid)) =
    if env.fails delete_task_query then (w, tool_error "db error") else (
      write_audit_log user "task.delete" "task" id (query_delete_task env tid user w),
      tool_result "deleted",
    )

unfoldable pub delete_task : Env → ToolRequest → World → World × Reply String
delete_task env req w = delete_found env w (own_task env req w)
