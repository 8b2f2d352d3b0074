-- ===== src/Rest/Create.antt =====
-- cmd/server/task_rest_handlers.go apiCreateTaskHandler. The workspace's id is only checked.
use gsactions_mcp.Common.{
  ◌==◌, ℕ, String, Bool, not, Option, none, some, List, [], ◌∷◌, ◌++◌, if◌then◌else◌,
}
use gsactions_mcp.Json.{Json}
use gsactions_mcp.Quota.{check_user_quota}
use gsactions_mcp.Rest.{Answered, optional_uuid, reference_ok}
use gsactions_mcp.Store.{World, Env}
use gsactions_mcp.Tools.{write_audit_log}
use gsactions_mcp.Tools.Create.{CreateTaskParams, query_create_task}
use gsactions_mcp.Uuid.{Uuid, format_uuid}

pub record CreateTaskRequest : Type 0 where
  pub name : String
  pub workspace_id : String
  pub task_type : String
  pub agent_prompt : String
  pub native_code : String
  pub trigger_type : String
  pub trigger_config : Option Json
  pub requires_approval : Bool
  pub missed_task_policy : String
  pub depends_on_task_id : String
  pub trigger_on_completion : Bool
  pub branch_condition : Option Json
  pub loop_condition : Option Json
  pub swarm_config : Option Json

unfoldable request_params : Env → String → CreateTaskRequest → Option Uuid → CreateTaskParams
request_params env user req parent = record {
  user_id = user;
  name = req.name;
  trigger_type = req.trigger_type;
  trigger_config = req.trigger_config;
  agent_prompt = req.agent_prompt;
  missed_task_policy =
      if req.missed_task_policy == "" then "run_immediately" else req.missed_task_policy;
  depends_on_task_id = parent;
  next_run = env.now;
  requires_approval = req.requires_approval;
  trigger_on_completion = req.trigger_on_completion;
  task_type = req.task_type;
  native_code = req.native_code;
  branch_condition = req.branch_condition;
  loop_condition = req.loop_condition;
  swarm_config = req.swarm_config;
}

abbrev task_created : String → World → List ℕ → World × Option Uuid → Answered
task_created user w written (v, none) = (w, written ++ (500 ∷ []))
task_created user w written (v, some id) =
    (write_audit_log user "task.create" "task" (format_uuid id) v, written ++ (201 ∷ []))

unfoldable create_parsed :
    Env → String → CreateTaskRequest → List ℕ → Option Uuid × List ℕ → World → Answered
create_parsed env user req written (parent, more) w =
    if not (reference_ok parent w)
    then (w, written ++ more ++ (500 ∷ []))
    else task_created user w (written ++ more)
        (query_create_task env (request_params env user req parent) w)

-- apiCreateTaskHandler
unfoldable api_create_task : Env → String → String → Option CreateTaskRequest → World → Answered
api_create_task env user tier body w =
    if user == "" then (w, 401 ∷ []) else elim (check_user_quota env user tier w) [
      | some e ↦ (w, 403 ∷ [])
      | none ↦ elim body [
        | none ↦ (w, 400 ∷ [])
        | some req ↦
            create_parsed env user req (optional_uuid req.workspace_id).1
              (optional_uuid req.depends_on_task_id) w
      ]
    ]
