-- ===== src/Tools/Create.antt =====
-- cmd/server/tools.go: the tool create_task, and the insertion of a task.
-- The columns `encrypted_secrets` and `is_bundle_root` are read by no modelled operation and left out.
use Prim.Native.String.{len}
use gsactions_mcp.Common.{
  ◌==◌, String, ◌<>◌, Bool, true, false, ◌&&◌, ◌||◌, not, Option, none, some, List, [], ◌∷◌, ltb,
  if◌then◌else◌, is_none, length, any,
}
use gsactions_mcp.Common.Int.{pos}
use gsactions_mcp.Dispatch.{show_int}
use gsactions_mcp.Json.{
  Json, object, Fields, end, field, get_field, as_string, as_bool, as_object, text_or_empty,
}
use gsactions_mcp.Quota.{QuotaError, count_failed, quota_exceeded, check_user_quota}
use gsactions_mcp.Schedule.{calculate_next_run}
use gsactions_mcp.Store.{Time, Task, World, create_task_query, Env, status_active}
use gsactions_mcp.Store.Queries.{query_check_task_ownership}
use gsactions_mcp.Tools.{
  ToolRequest, Reply, tool_result, tool_error, ◌>>=◌, ◌>>◌, require, refuse_if, write_audit_log,
}
use gsactions_mcp.Uuid.{Uuid, format_uuid, parse_uuid}

-- CreateTaskParams, with the columns of `Task`.
pub record CreateTaskParams : Type 0 where
  pub user_id : String
  pub name : String
  pub trigger_type : String
  pub trigger_config : Option Json
  pub agent_prompt : String
  pub missed_task_policy : String
  pub depends_on_task_id : Option Uuid
  pub next_run : Time
  pub requires_approval : Bool
  pub trigger_on_completion : Bool
  pub task_type : String
  pub native_code : String
  pub branch_condition : Option Json
  pub loop_condition : Option Json
  pub swarm_config : Option Json

-- The row of an INSERT, with the defaults of the table.
unfoldable pub new_row : Uuid → CreateTaskParams → Task
new_row id p = record {
  id = id;
  user_id = p.user_id;
  name = p.name;
  trigger_type = p.trigger_type;
  trigger_config = p.trigger_config;
  agent_prompt = p.agent_prompt;
  status = status_active;
  locked_by = none;
  next_run = p.next_run;
  last_run = none;
  failure_count = pos 0;
  missed_task_policy = p.missed_task_policy;
  depends_on_task_id = p.depends_on_task_id;
  requires_approval = p.requires_approval;
  last_approval_status = "";
  trigger_on_completion = p.trigger_on_completion;
  task_type = p.task_type;
  native_code = p.native_code;
  max_retries = pos 0;
  retry_count = pos 0;
  backoff_strategy = "linear";
  ui_coordinates = none;
  branch_condition = p.branch_condition;
  loop_condition = p.loop_condition;
  swarm_config = p.swarm_config;
}

task_types : List String
task_types = "mcp_sampling" ∷ "native_action" ∷ "decision_router" ∷ "swarm_router" ∷ []

-- The CHECKs of the table on the other columns.
unfoldable pub row_allowed : CreateTaskParams → Bool
unfolding task_types
row_allowed p =
    not (is_none p.trigger_config)
    && any (λ a. a == p.trigger_type) ("cron" ∷ "interval" ∷ "date" ∷ [])
    && any (λ a. a == p.missed_task_policy) ("skip" ∷ "run_immediately" ∷ [])
    && any (λ a. a == p.task_type) task_types

-- CreateTask: the new world and the new id, `none` on an error.
unfoldable pub query_create_task : Env → CreateTaskParams → World → World × Option Uuid
query_create_task env p w =
    let id = env.fresh_id (length w.tasks) in
    if env.fails create_task_query || not (row_allowed p)
    then (w, none)
    else (record w { tasks = new_row id p ∷ w.tasks }, some id)

abbrev or_default : String → Option String → String
or_default d none = d
or_default d (some s) = s

-- taskType: a text that is not empty, or mcp_sampling
task_type_of : Option String → String
task_type_of none = "mcp_sampling"
task_type_of (some s) = if s == "" then "mcp_sampling" else s

-- missedPolicy, with the alias of older clients
missed_policy_of : Option String → String
missed_policy_of none = "skip"
missed_policy_of (some s) =
    if s == "skip" || s == "run_immediately"
    then s
    else if s == "run_immediate"
    then "run_immediately"
    else "skip"

has_fields : Fields → Bool
has_fields end = false
has_fields (field k v fs) = true

-- Encrypt of the marshalled secrets, if there are any; `encrypt` gives an error's text.
check_secrets : (Fields → Option String) → Option Fields → Reply (Unit {0})
check_secrets encrypt none = tool_result tt
check_secrets encrypt (some secrets) =
    if has_fields secrets then encryption (encrypt secrets) else tool_result tt
  where
    encryption : Option String → Reply (Unit {0})
    encryption none = tool_result tt
    encryption (some e) = tool_error ("encryption error: " <> e)

owned_parent : Option Bool → Uuid → Reply (Option Uuid)
owned_parent (some true) id = tool_result (some id)
owned_parent _ id = tool_error "invalid depends_on_task_id: task not found or unauthorized"

-- depends_on_task_id: absent or empty, or the id of a task of the user's
dependency : Env → World → String → Option String → Reply (Option Uuid)
unfolding owned_parent
dependency env w user none = tool_result none
dependency env w user (some dep) =
    if dep == ""
    then tool_result none
    else (require (parse_uuid dep) "invalid depends_on_task_id format, expected UUID" >>= λ id.
        owned_parent (query_check_task_ownership env id user w) id)

-- A context without a tier counts as free.
abbrev pub tier_of : ToolRequest → String
tier_of req = or_default "free" req.user_tier

abbrev quota_error : Option QuotaError → Reply (Unit {0})
quota_error none = tool_result tt
quota_error (some count_failed) = tool_error "failed to fetch task count"
quota_error (some (quota_exceeded tier limit)) = tool_error (
    "quota exceeded: " <> (tier <> (" tier allows maximum " <> (show_int (pos limit) <> " tasks"))))

abbrev object_column : Option Fields → Option Json
object_column none = none
object_column (some fs) = some (object fs)

abbrev flag_or_false : Option Bool → Bool
flag_or_false none = false
flag_or_false (some b) = b

-- Who asks with which arguments, once the quota is checked.
unfoldable pub admission : Env → ToolRequest → World → Reply (Fields × String)
admission env req w = do
  args ← require req.arguments "invalid arguments"
  user ← require req.user_id "unauthorized"
  quota_error (check_user_quota env user (tier_of req) w)
  tool_result (args, user)

-- The rest of the checks, up to the insertion.
unfoldable pub params_of :
    Env → (Fields → Option String) → World → Fields × String → Reply CreateTaskParams
unfolding task_type_of missed_policy_of check_secrets has_fields dependency
params_of env encrypt w (args, user) = do
  name ← require (as_string (get_field "name" args)) "missing or invalid 'name'"
  refuse_if (ltb 100 (len name)) "name too long: maximum 100 characters"
  type ← require (as_string (get_field "trigger_type" args)) "missing or invalid 'trigger_type'"
  let prompt = text_or_empty (as_string (get_field "agent_prompt" args))
  refuse_if (ltb 10000 (len prompt)) "agent_prompt too long: maximum 10,000 characters"
  config ←
      require (as_object (get_field "trigger_config" args)) "missing or invalid 'trigger_config'"
  check_secrets encrypt (as_object (get_field "secrets" args))
  parent ← dependency env w user (as_string (get_field "depends_on_task_id" args))
  next ← require (calculate_next_run env type config env.now) "invalid trigger configuration"
  tool_result (record {
    user_id = user;
    name = name;
    trigger_type = type;
    trigger_config = some (object config);
    agent_prompt = prompt;
    missed_task_policy = missed_policy_of (as_string (get_field "missed_task_policy" args));
    depends_on_task_id = parent;
    next_run = next;
    requires_approval = flag_or_false (as_bool (get_field "requires_approval" args));
    trigger_on_completion = false;
    task_type = task_type_of (as_string (get_field "task_type" args));
    native_code = text_or_empty (as_string (get_field "native_code" args));
    branch_condition = object_column (as_object (get_field "branch_condition" args));
    loop_condition = none;
    swarm_config = object_column (as_object (get_field "swarm_config" args));
  })

unfoldable pub create_params :
    Env → (Fields → Option String) → ToolRequest → World → Reply CreateTaskParams
create_params env encrypt req w = admission env req w >>= params_of env encrypt w

abbrev inserted : CreateTaskParams → World × Option Uuid → World × Reply (Uuid × Time)
inserted p (v, none) = (v, tool_error "failed to insert task")
inserted p (v, some id) = (
  write_audit_log p.user_id "task.create" "task" (format_uuid id) v,
  tool_result (id, p.next_run),
)

unfoldable pub insert_checked : Env → World → Reply CreateTaskParams → World × Reply (Uuid × Time)
insert_checked env w (tool_error e) = (w, tool_error e)
insert_checked env w (tool_result p) = inserted p (query_create_task env p w)

-- create_task: the id of the new task and its next run.
unfoldable pub create_task :
    Env → (Fields → Option String) → ToolRequest → World → World × Reply (Uuid × Time)
create_task env encrypt req w = insert_checked env w (create_params env encrypt req w)
