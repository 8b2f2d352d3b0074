-- ===== src/Store.antt =====
-- The rows that cmd/server reads and writes through the package db, the services around it, and the
-- state of both. A text column that the program reads through its `String` field is a `String`, empty
-- for NULL. Integer columns are integers, times are nanoseconds since 1970.
pub mod Queries
pub mod Laws
use gsactions_mcp.Common.{ℕ, String, ◌≡◌, ◌⊎◌, Bool, false, Option, List}
use gsactions_mcp.Common.Int.{ℤ}
use gsactions_mcp.Json.{Json, Fields, Floats}
use gsactions_mcp.Uuid.{Uuid}

abbrev pub Time : Type 0
Time = ℤ

-- db.Task, without the columns that no modelled operation reads or writes.
pub record Task : Type 0 where
  pub id : Uuid
  pub user_id : String
  pub name : String
  pub trigger_type : String
  pub trigger_config : Option Json
  pub agent_prompt : String
  pub status : String
  pub locked_by : Option String
  pub next_run : Time
  pub last_run : Option Time
  pub failure_count : ℤ
  pub missed_task_policy : String
  pub depends_on_task_id : Option Uuid
  pub requires_approval : Bool
  pub last_approval_status : String
  pub trigger_on_completion : Bool
  pub task_type : String
  pub native_code : String
  pub max_retries : ℤ
  pub retry_count : ℤ
  pub backoff_strategy : String
  pub ui_coordinates : Option Json
  pub branch_condition : Option Json
  pub loop_condition : Option Json
  pub swarm_config : Option Json

-- db.TaskLog
pub record TaskLog : Type 0 where
  pub task_id : Uuid
  pub user_id : String
  pub status : String
  pub error_message : Option String
  pub llm_response : Option String

-- db.ExecutionTrace, newest first in the store.
pub record Trace : Type 0 where
  pub task_id : Uuid
  pub execution_id : String
  pub step_name : String
  pub input_data : Option String
  pub output_data : Option String
  pub is_error : Bool
  pub error_message : Option String

-- db.TaskVersion, without created_at and is_bundle_root; newest first in the store.
pub record TaskVersion : Type 0 where
  pub id : Uuid
  pub task_id : Uuid
  pub name : String
  pub trigger_type : String
  pub trigger_config : Option Json
  pub agent_prompt : String
  pub missed_task_policy : String
  pub depends_on_task_id : Option Uuid
  pub requires_approval : Bool
  pub trigger_on_completion : Bool
  pub task_type : String
  pub native_code : String
  pub branch_condition : Option Json
  pub loop_condition : Option Json
  pub swarm_config : Option Json

-- blueprintTask of cmd/server/template_handlers.go, without is_bundle_root.
pub record BlueprintTask : Type 0 where
  pub id : String
  pub name : String
  pub task_type : String
  pub agent_prompt : String
  pub native_code : String
  pub trigger_type : String
  pub trigger_config : Option Json
  pub requires_approval : Bool
  pub missed_task_policy : String
  pub depends_on : String
  pub trigger_on_completion : Bool
  pub branch_condition : Option Json
  pub swarm_config : Option Json

-- db.Template; its config as json.Unmarshal reads it, as a list of tasks or as one task, and `none`
-- where neither succeeds.
pub record Template : Type 0 where
  pub id : Uuid
  pub config : Option (List BlueprintTask)
  pub uses_count : ℤ

-- db.WorkflowState
pub record WorkflowState : Type 0 where
  pub task_id : Uuid
  pub execution_id : String
  pub state_data : Option Json

-- PubSubEvent; the payload is the map that is marshalled.
pub record PubSubEvent : Type 0 where
  pub user_id : String
  pub event_type : String
  pub payload : List (String × String)

-- The payload of `trigger_task:<user>`.
pub record TriggerMessage : Type 0 where
  pub user_id : String
  pub task_id : String
  pub prompt : String
  pub execution_id : String
  pub trigger_type : String
  pub trigger_config : Option Json
  pub trigger_payload : Option Fields

-- AuditEvent, without its metadata.
pub record AuditEvent : Type 0 where
  pub user_id : String
  pub action : String
  pub resource_type : String
  pub resource_id : String

-- What the operations change: tables, published messages, counters, mails. Lists grow at the head.
pub record World : Type 0 where
  pub tasks : List Task
  pub logs : List TaskLog
  pub traces : List Trace
  pub states : List WorkflowState
  pub dlq : List (Uuid × String)
  pub events : List PubSubEvent
  pub triggers : List TriggerMessage
  pub outcomes : List String
  pub emails : List (String × String)
  pub audits : List AuditEvent
  pub versions : List TaskVersion
  pub templates : List Template
  -- keys of Redis that SETNX has set, with the time at which each runs out
  pub locks : List (String × Time)

-- The kinds of database calls; each may fail.
pub data Query : Type 0 where
  create_execution_trace create_task_log move_to_dlq update_task_next_run : Query
  update_task_status update_task_status_and_failure_count update_task_approval_status : Query
  update_task_approval_status_and_last_run update_task_status_and_last_run : Query
  complete_task_query get_dependent_tasks_to_trigger get_dependent_tasks get_task_output : Query
  get_latest_workflow_state get_workflow_state upsert_workflow_state get_user_email : Query
  check_task_ownership update_task_status_by_user_id reset_task_failure_count delete_task_query :
      Query
  count_user_tasks create_task_query link_task_dependency get_task_by_id : Query
  increment_task_failure_count get_dispatchable_task_by_id reap_stuck_tasks claim_due_tasks set_nx :
      Query
  begin_transaction commit_transaction create_task_version : Query
  update_task_agent_prompt_and_policy restore_task_from_version : Query
  get_template_by_id_raw increment_template_uses export_user_tasks_query : Query

-- What the operations are given and do not change: the process, the clock and the services. One
-- reading of the clock serves one handler, and a kind of call that fails does so all through it.
pub record Env : Type 0 where
  pub fails : Query → Bool
  pub worker_id : String
  pub now : Time
  pub floats : Floats
  -- gen_random_uuid(), by the number of rows that the table holds
  pub fresh_id : ℕ → Uuid
  pub fresh_version_id : ℕ → Uuid
  -- users.email, `none` for NULL or no row
  pub user_email : String → Option String
  -- SessionManager.IsOnline
  pub is_online : String → Bool
  -- RedisClient.Publish: the number of subscribers, or an error's text
  pub publish : String → ℕ ⊎ String
  -- robfig/cron: the parsed expression's next time after the one given
  pub cron_next : String → Time → Option Time
  -- time.Parse(time.RFC3339, s), in UTC
  pub parse_rfc3339 : String → Option Time
  pub format_rfc3339 : Time → String
  -- executeNativeJS on the code and the trigger payload: a result, or an error's text
  pub execute_native_js : String → Option Fields → String ⊎ String
  -- json.Marshal of a value
  pub marshal_json : Json → String
  -- regexp's ReplaceAllString by a pattern, on a text and with a replacement
  pub replace_all_string : String → String → String → String
  -- len(s) and s[:n], which count bytes
  pub byte_length : String → ℤ
  pub byte_prefix : ℤ → String → String
  -- appConfig.StoreLLMResponses and appConfig.MaxLLMResponseChars
  pub store_llm_responses : Bool
  pub max_llm_response_chars : ℤ
  -- is SENDGRID_API_KEY set
  pub mail_configured : Bool

-- Every call succeeds.
abbrev pub Up : Env → Type 0
Up env = (q : Query) → env.fails q ≡ false

-- cmd/server/constants.go
abbrev pub status_active : String
status_active = "active"

abbrev pub status_paused : String
status_paused = "paused"

abbrev pub status_processing : String
status_processing = "processing"

abbrev pub status_completed : String
status_completed = "completed"

abbrev pub status_error : String
status_error = "error"

abbrev pub status_halted : String
status_halted = "halted"

abbrev pub needs_routing : String
needs_routing = "needs_routing"
