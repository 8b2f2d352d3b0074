-- ===== src/Rest/Versions.antt =====
-- cmd/server/task_rest_handlers.go apiUpdateTaskHandler, apiRestoreTaskVersionHandler: a change of a
-- task keeps the task as a version, which can be restored. Both work in one transaction, which a
-- statement that fails aborts. A version
-- has no column ui_coordinates, so what a change sets there stays.
use gsactions_mcp.Common.{
  ◌==◌, ℕ, String, Bool, ◌&&◌, ◌||◌, not, Option, none, some, List, [], ◌∷◌, ◌++◌, nat_eq,
  if◌then◌else◌, length, any,
}
use gsactions_mcp.Json.{Json}
use gsactions_mcp.Rest.{Answered, must_parse_uuid, optional_uuid, on_id, has_row, reference_ok}
use gsactions_mcp.Store.{
  Task, TaskVersion, World, begin_transaction, commit_transaction, create_task_version,
  update_task_agent_prompt_and_policy, restore_task_from_version, Env,
}
use gsactions_mcp.Store.Queries.{update_where, owned, find_where}
use gsactions_mcp.Tools.{write_audit_log}
use gsactions_mcp.Uuid.{Uuid, uuid_eq}

pub record UpdateTaskRequest : Type 0 where
  pub agent_prompt : String
  pub missed_task_policy : String
  pub ui_coordinates : Option Json
  pub depends_on_task_id : String
  pub trigger_on_completion : Bool
  pub branch_condition : Option Json
  pub loop_condition : Option Json
  pub swarm_config : Option Json

abbrev pub version_of : Uuid → Task → TaskVersion
version_of id t = record {
  id = id;
  task_id = t.id;
  name = t.name;
  trigger_type = t.trigger_type;
  trigger_config = t.trigger_config;
  agent_prompt = t.agent_prompt;
  missed_task_policy = t.missed_task_policy;
  depends_on_task_id = t.depends_on_task_id;
  requires_approval = t.requires_approval;
  trigger_on_completion = t.trigger_on_completion;
  task_type = t.task_type;
  native_code = t.native_code;
  branch_condition = t.branch_condition;
  loop_condition = t.loop_condition;
  swarm_config = t.swarm_config;
}

-- CreateTaskVersion: no row of the user's, no version.
unfoldable pub query_create_task_version : Env → Option Uuid → String → World → World
query_create_task_version env none user w = w
query_create_task_version env (some id) user w = elim (find_where (owned id user) w.tasks) [
  | none ↦ w
  | some t ↦ record w {
    versions = version_of (env.fresh_version_id (length w.versions)) t ∷ w.versions;
  }
]

abbrev policy_ok : String → Bool
policy_ok s = s == "skip" || s == "run_immediately"

unfoldable pub updated_row : UpdateTaskRequest → Option Uuid → Task → Task
updated_row req parent t = record t {
  agent_prompt = req.agent_prompt;
  missed_task_policy = req.missed_task_policy;
  ui_coordinates = req.ui_coordinates;
  depends_on_task_id = parent;
  trigger_on_completion = req.trigger_on_completion;
  branch_condition = req.branch_condition;
  loop_condition = req.loop_condition;
  swarm_config = req.swarm_config;
}

-- UpdateTaskAgentPromptAndPolicy, where a row is found and the constraints hold
unfoldable pub query_update_task_agent_prompt_and_policy :
    UpdateTaskRequest → Option Uuid → String → Uuid → World → World
query_update_task_agent_prompt_and_policy req parent user id w = record w {
  tasks = update_where (owned id user) (updated_row req parent) w.tasks;
}

-- The status of the change.
unfoldable pub update_code :
    Env → UpdateTaskRequest → Option Uuid → Option Uuid → String → World → ℕ
update_code env req id parent user w =
    if env.fails begin_transaction || env.fails create_task_version
    then 500
    else if env.fails update_task_agent_prompt_and_policy
    then 500
    else if not (has_row id user w)
    then 404
    else if not (policy_ok req.missed_task_policy) || not (reference_ok parent w)
    then 500
    else if env.fails commit_transaction
    then 500
    else 200

unfoldable pub update_parsed :
    Env
    → String
    → String
    → UpdateTaskRequest
    → Option Uuid × List ℕ
    → Option Uuid × List ℕ
    → World
    → Answered
update_parsed env user text req (id, written) (parent, more) w =
    let status_code = update_code env req id parent user w in
    let codes = written ++ more ++ (status_code ∷ []) in
    if nat_eq status_code 200
    then (
      write_audit_log user "task.update" "task" text (
          on_id id (query_update_task_agent_prompt_and_policy req parent user)
            (query_create_task_version env id user w)),
      codes,
    )
    else (w, codes)

-- apiUpdateTaskHandler: the parent's id is read after the transaction has begun.
unfoldable pub api_update_task : Env → String → String → Option UpdateTaskRequest → World → Answered
api_update_task env user text body w = if user == "" then (w, 401 ∷ []) else elim body [
  | none ↦ (w, (must_parse_uuid text).1 ++ (400 ∷ []))
  | some req ↦
      let parent =
        if env.fails begin_transaction then (none, []) else optional_uuid req.depends_on_task_id in
      update_parsed env user text req (must_parse_uuid text) parent w
]

unfoldable pub find_version : Uuid → Uuid → List TaskVersion → Option TaskVersion
find_version version id [] = none
find_version version id (v ∷ vs) =
    if uuid_eq v.id version && uuid_eq v.task_id id then some v else find_version version id vs

abbrev pub restored_row : TaskVersion → Task → Task
restored_row v t = record t {
  name = v.name;
  trigger_type = v.trigger_type;
  trigger_config = v.trigger_config;
  agent_prompt = v.agent_prompt;
  missed_task_policy = v.missed_task_policy;
  depends_on_task_id = v.depends_on_task_id;
  requires_approval = v.requires_approval;
  trigger_on_completion = v.trigger_on_completion;
  task_type = v.task_type;
  native_code = v.native_code;
  branch_condition = v.branch_condition;
  loop_condition = v.loop_condition;
  swarm_config = v.swarm_config;
}

-- The version of a task of the user's that two ids name.
unfoldable pub named_version : Option Uuid → Option Uuid → String → World → Option TaskVersion
named_version (some version) (some id) user w =
    if any (owned id user) w.tasks then find_version version id w.versions else none
named_version _ _ user w = none

-- RestoreTaskFromVersion: `none` is an error, and a version that is not there is none.
unfoldable pub query_restore_task_from_version :
    Env → Option Uuid → Option Uuid → String → World → Option World
query_restore_task_from_version env version id user w =
    if env.fails restore_task_from_version then none else elim (named_version version id user w) [
      | none ↦ some w
      | some v ↦
          if reference_ok v.depends_on_task_id w
          then some
              (record w { tasks = update_where (owned v.task_id user) (restored_row v) w.tasks })
          else none
    ]

unfoldable pub restore_parsed :
    Env → String → String → Option Uuid × List ℕ → Option Uuid × List ℕ → World → Answered
restore_parsed env user text (id, written) (version, more) w =
    if env.fails begin_transaction || env.fails create_task_version
    then (w, written ++ more ++ (500 ∷ []))
    else elim (query_restore_task_from_version env version id user
        (query_create_task_version env id user w)) [
          | none ↦ (w, written ++ more ++ (500 ∷ []))
          | some v ↦ if env.fails commit_transaction then (w, written ++ more ++ (500 ∷ [])) else (
            write_audit_log user "task.restore_version" "task" text v,
            written ++ more ++ (200 ∷ []),
          )
        ]

-- apiRestoreTaskVersionHandler
unfoldable pub api_restore_task_version : Env → String → String → String → World → Answered
api_restore_task_version env user text version_text w =
    if user == ""
    then (w, 401 ∷ [])
    else restore_parsed env user text (must_parse_uuid text) (must_parse_uuid version_text) w
