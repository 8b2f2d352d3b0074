-- ===== src/Transfer.antt =====
-- cmd/server/task_transfer.go: the import of a bundle of tasks. Each statement commits on its own.
-- The column `is_bundle_root` is read by no modelled operation and left out.
pub mod Laws
pub mod Exported
use gsactions_mcp.Common.{
  ◌==◌, ℕ, ◌+◌, String, ◌⊎◌, inl, inr, Bool, ◌||◌, Option, none, some, List, [], ◌∷◌, map,
  if◌then◌else◌,
}
use gsactions_mcp.Json.{Json, unmarshal_map}
use gsactions_mcp.Schedule.{calculate_next_run}
use gsactions_mcp.Store.{Time, Task, World, link_task_dependency, export_user_tasks_query, Env}
use gsactions_mcp.Store.Queries.{update_where, owned, filter_where}
use gsactions_mcp.Tools.{write_audit_log}
use gsactions_mcp.Tools.Create.{CreateTaskParams, query_create_task}
use gsactions_mcp.Uuid.{Uuid, format_uuid}

pub record TransferTask : Type 0 where
  pub legacy_id : String
  pub name : String
  pub trigger_type : String
  pub trigger_config : Option Json
  pub agent_prompt : String
  pub missed_task_policy : String
  pub requires_approval : Bool
  pub depends_on_legacy_id : String
  pub trigger_on_completion : Bool
  pub task_type : String
  pub native_code : String
  pub branch_condition : Option Json
  pub swarm_config : Option Json

-- The errors of importUserTasks, with the index of the task or the ids that they name.
pub data ImportError : Type 0 where
  name_required trigger_type_required invalid_trigger_config invalid_schedule : ℕ → ImportError
  create_failed : ℕ → ImportError
  not_included : String → String → ImportError
  link_failed : String → ImportError

-- The map `created`, the latest assignment first.
abbrev pub Created : Type 0
Created = List (String × Uuid)

unfoldable pub created_id : String → Created → Option Uuid
created_id legacy [] = none
created_id legacy ((k, id) ∷ created) = if k == legacy then some id else created_id legacy created

abbrev pub or_else : String → String → String
or_else default s = if s == "" then default else s

abbrev pub params_at : String → TransferTask → Time → CreateTaskParams
params_at user t next = record {
  user_id = user;
  name = t.name;
  trigger_type = t.trigger_type;
  trigger_config = t.trigger_config;
  agent_prompt = t.agent_prompt;
  missed_task_policy = or_else "run_immediately" t.missed_task_policy;
  depends_on_task_id = none;
  next_run = next;
  requires_approval = t.requires_approval;
  trigger_on_completion = t.trigger_on_completion;
  task_type = or_else "mcp_sampling" t.task_type;
  native_code = t.native_code;
  branch_condition = t.branch_condition;
  loop_condition = none;
  swarm_config = t.swarm_config;
}

-- The checks of the first loop, and what they give to CreateTask.
unfoldable pub import_params : Env → String → ℕ → TransferTask → ImportError ⊎ CreateTaskParams
import_params env user idx t =
    if t.name == ""
    then inl (name_required idx)
    else if t.trigger_type == ""
    then inl (trigger_type_required idx)
    else elim (unmarshal_map t.trigger_config) [
      | none ↦ inl (invalid_trigger_config idx)
      | some config ↦ elim (calculate_next_run env t.trigger_type config env.now) [
        | none ↦ inl (invalid_schedule idx)
        | some next ↦ inr (params_at user t next)
      ]
    ]

abbrev note_created : TransferTask → Uuid → Created → Created
note_created t id created = if t.legacy_id == "" then created else (t.legacy_id, id) ∷ created

-- What comes of the checks, and of the insertion.
unfoldable pub noted :
    ℕ → TransferTask → Created → World × Option Uuid → World × (ImportError ⊎ Created)
noted idx t created (v, none) = (v, inl (create_failed idx))
noted idx t created (v, some id) = (v, inr (note_created t id created))

unfoldable pub create_checked :
    Env
    → ℕ
    → TransferTask
    → Created
    → World
    → ImportError ⊎ CreateTaskParams
    → World × (ImportError ⊎ Created)
create_checked env idx t created w (inl e) = (w, inl e)
create_checked env idx t created w (inr p) = noted idx t created (query_create_task env p w)

-- The body of the first loop.
unfoldable pub create_one :
    Env → String → ℕ → TransferTask → Created → World → World × (ImportError ⊎ Created)
create_one env user idx t created w =
    create_checked env idx t created w (import_params env user idx t)

unfoldable pub create_all :
    Env → String → ℕ → List TransferTask → Created → World → World × (ImportError ⊎ Created)
create_all env user idx [] created w = (w, inr created)
create_all env user idx (t ∷ ts) created w =
    let one = create_one env user idx t created w in
    elim one.1 [
      | inl e ↦ (one.0, inl e)
      | inr created' ↦ create_all env user (idx + 1) ts created' one.0
    ]

unfoldable pub query_link_task_dependency : Env → Option Uuid → Bool → Uuid → String → World → World
query_link_task_dependency env parent trigger id user w = record w {
  tasks =
      update_where (owned id user)
        (λ t. record t { depends_on_task_id = parent; trigger_on_completion = trigger }) w.tasks;
}

-- The body of the second loop; `none` is success.
unfoldable pub link_one : Env → String → Created → TransferTask → World → World × Option ImportError
link_one env user created t w =
    if t.legacy_id == "" || t.depends_on_legacy_id == ""
    then (w, none)
    else elim (created_id t.legacy_id created) [
      | none ↦ (w, none)
      | some child ↦ elim (created_id t.depends_on_legacy_id created) [
        | none ↦ (w, some (not_included t.depends_on_legacy_id t.legacy_id))
        | some parent ↦
            if env.fails link_task_dependency then (w, some (link_failed t.legacy_id)) else (
              query_link_task_dependency env (some parent) t.trigger_on_completion child user w,
              none,
            )
      ]
    ]

unfoldable pub link_all :
    Env → String → Created → List TransferTask → World → World × Option ImportError
link_all env user created [] w = (w, none)
link_all env user created (t ∷ ts) w =
    let one = link_one env user created t w in
    elim one.1 [ some e ↦ (one.0, some e) | none ↦ link_all env user created ts one.0 ]

-- importUserTasks: the ids of the new tasks by the ids in the bundle.
unfoldable pub import_user_tasks :
    Env → String → List TransferTask → World → World × (ImportError ⊎ Created)
import_user_tasks env user tasks w =
    let first = create_all env user 0 tasks [] w in
    elim first.1 [
      | inl e ↦ (first.0, inl e)
      | inr created ↦
          let second = link_all env user created tasks first.0 in
          elim second.1 [ some e ↦ (second.0, inl e) | none ↦ (second.0, inr created) ]
    ]

-- exportUserTasks: the body of its loop, and the bundle; `none` is an error.
unfoldable pub export_task : Task → TransferTask
export_task t = record {
  legacy_id = format_uuid t.id;
  name = t.name;
  trigger_type = t.trigger_type;
  trigger_config = t.trigger_config;
  agent_prompt = t.agent_prompt;
  missed_task_policy = t.missed_task_policy;
  requires_approval = t.requires_approval;
  depends_on_legacy_id = elim t.depends_on_task_id [ none ↦ "" | some parent ↦ format_uuid parent ];
  trigger_on_completion = t.trigger_on_completion;
  task_type = t.task_type;
  native_code = t.native_code;
  branch_condition = t.branch_condition;
  swarm_config = t.swarm_config;
}

unfoldable export_user_tasks : Env → String → World → Option (List TransferTask)
export_user_tasks env user w =
    if env.fails export_user_tasks_query
    then none
    else some (map export_task (filter_where (λ t. t.user_id == user) w.tasks))

-- apiExportTasksHandler and apiImportTasksHandler: the new state, the status, and what is exported.
unfoldable api_export_tasks : Env → Option String → World → World × ℕ × List TransferTask
api_export_tasks env none w = (w, 401, [])
api_export_tasks env (some user) w = elim (export_user_tasks env user w) [
  | none ↦ (w, 500, [])
  | some bundle ↦ (write_audit_log user "task.export" "task_bundle" "" w, 200, bundle)
]

unfoldable pub imported : String → World × (ImportError ⊎ Created) → World × ℕ
imported user (w, inl e) = (w, 400)
imported user (w, inr created) = (write_audit_log user "task.import" "task_bundle" "" w, 201)

unfoldable api_import_tasks : Env → Option String → Option (List TransferTask) → World → World × ℕ
unfolding imported
api_import_tasks env none body w = (w, 401)
api_import_tasks env (some user) none w = (w, 400)
api_import_tasks env (some user) (some []) w = (w, 400)
api_import_tasks env (some user) (some (t ∷ ts)) w =
    imported user (import_user_tasks env user (t ∷ ts) w)
