-- ===== src/Dispatch/Branches.antt =====
-- cmd/server/scheduler.go handleDispatchTask: its branches, in the order of the source.
use gsactions_mcp.Common.{
  ◌==◌, ℕ, zero, suc, String, ◌⊎◌, inl, inr, Bool, ◌&&◌, not, Option, none, some, List, [], ◌∷◌,
  if◌then◌else◌,
}
use gsactions_mcp.Common.Int.{◌+ℤ◌}
use gsactions_mcp.Completion.{complete_task}
use gsactions_mcp.Conditions.{evaluate_workflow_loop}
use gsactions_mcp.Dispatch.{
  execution_id_of, observe_task_outcome, publish_event, log_and_publish, trace_error, trace_output,
  trace_input,
}
use gsactions_mcp.Dispatch.Retry.{retry_or_give_up}
use gsactions_mcp.Json.{Json, null, string, object, Fields, end, field, unmarshal_map}
use gsactions_mcp.Privacy.{mask_sensitive_data}
use gsactions_mcp.Prompt.{resolve_prompt_variables, query_get_workflow_state}
use gsactions_mcp.Schedule.{minute, calculate_next_run}
use gsactions_mcp.Store.{
  Task, WorkflowState, TriggerMessage, World, get_latest_workflow_state, Env, status_active,
  status_paused,
}
use gsactions_mcp.Store.Queries.{
  query_update_task_next_run, query_update_task_status, query_update_task_approval_status,
}
use gsactions_mcp.Uuid.{Uuid, uuid_eq, format_uuid}

-- The approval gate stops a task that needs an approval it does not have.
unfoldable pub needs_approval : Task → Bool
needs_approval t = t.requires_approval && not (t.last_approval_status == "approved")

unfoldable pub pause_for_approval : Env → Task → World → World
pause_for_approval env t w =
    publish_event t.user_id "approval_required"
      (("task_id", format_uuid t.id)
        ∷ ("task_name", t.name)
        ∷ ("execution_id", execution_id_of env t)
        ∷ [])
      (query_update_task_approval_status env "pending" status_paused t.id t.user_id
        (observe_task_outcome "approval_required" w))

-- Where the trigger gives a next run the task is completed, and otherwise paused. This call of
-- UpdateTaskStatus leaves its field UserID empty.
unfoldable pub advance_or_pause : Env → Task → World → World
advance_or_pause env t w = elim (unmarshal_map t.trigger_config) [
  | none ↦ query_update_task_status env status_paused t.id "" w
  | some config ↦ elim (calculate_next_run env t.trigger_type config env.now) [
    | none ↦ query_update_task_status env status_paused t.id "" w
    | some next ↦ complete_task env t.user_id (format_uuid t.id) next status_active w
  ]
]

-- The user has no node on line.
unfoldable pub miss_task : Env → Task → World → World
miss_task env t w =
    let logged =
      log_and_publish env t "missed" (some "user offline") none ("error_message", "user offline")
        (("execution_id", execution_id_of env t) ∷ []) (observe_task_outcome "missed" w) in
    if t.missed_task_policy == "run_immediately"
    then query_update_task_next_run env status_active (env.now +ℤ minute) t.id logged
    else advance_or_pause env t logged

unfoldable pub native_failed : Env → Task → String → World → World
native_failed env t message w = retry_or_give_up env t message (
    trace_error env t "Native Execution Failed" message (
      log_and_publish env t "failure" (some message) none ("error_message", message)
        (("execution_id", execution_id_of env t) ∷ [])
        (observe_task_outcome "execution_failure" w)))

-- The state that a loop condition is evaluated in: a nil map where there is none.
unfoldable pub execution_state : Env → Uuid → String → World → Option Fields
execution_state env id execution w = elim (query_get_workflow_state env id execution w) [
  | none ↦ none
  | some column ↦ unmarshal_map column
]

unfoldable pub native_traced : Env → Task → String → World → World
native_traced env t result w = trace_output env t "Native Execution Success" result (
    log_and_publish env t "success" none (some result) ("llm_response", result)
      (("execution_id", execution_id_of env t) ∷ []) (observe_task_outcome "success" w))

-- Whether the loop condition asks for the next iteration at once.
unfoldable pub loops_again : Env → Task → World → Bool
loops_again env t w =
    evaluate_workflow_loop env.floats t.loop_condition
      (execution_state env t.id (execution_id_of env t) w)

unfoldable pub native_succeeded : Env → Task → String → World → World
unfolding native_traced
native_succeeded env t result w =
    let traced = native_traced env t result w in
    if loops_again env t traced
    then complete_task env t.user_id (format_uuid t.id) env.now status_active traced
    else advance_or_pause env t traced

abbrev payload_json : Option Fields → Json
payload_json none = null
payload_json (some p) = object p

unfoldable pub native_input : Env → Task → Option Fields → String
native_input env t payload = env.marshal_json (
    object (
      field "execution_id" (string (execution_id_of env t))
        (field "payload" (payload_json payload) (field "task_id" (string (format_uuid t.id)) end))))

unfoldable pub run_native : Env → Task → Option Fields → World → World
run_native env t payload w =
    let started = trace_input env t "Native Execution Started" (native_input env t payload) w in
    elim (env.execute_native_js t.native_code payload) [
      | inl result ↦ native_succeeded env t result started
      | inr message ↦ native_failed env t message started
    ]

-- The number of subscribers that got the message, or the error of the delivery: a message that
-- nobody got counts as an error, whose text wraps a nil error.
unfoldable pub delivery_error : ℕ ⊎ String → Option String
delivery_error (inl zero) = some "no active subscribers received the payload: %!w(<nil>)"
delivery_error (inl (suc n)) = none
delivery_error (inr message) = some message

unfoldable pub delivery_failed : Env → Task → String → World → World
delivery_failed env t message w = retry_or_give_up env t message (
    log_and_publish env t "failure" (some message) none ("error_message", message) []
      (trace_error env t "Task Delivery Failed" message
        (observe_task_outcome "delivery_failure" w)))

unfoldable pub delivered : Env → Task → TriggerMessage → World → World
delivered env t message w = trace_output env t "Task Delivered" "Task delivered to node via Redis" (
    log_and_publish env t "success" none (some "Task delivered to node via Redis")
      ("llm_response", "Task delivered to node via Redis") []
      (observe_task_outcome "delivered" (record w { triggers = message ∷ w.triggers })))

-- GetLatestWorkflowState, decoded: the newest state of the task.
latest_state : Uuid → List WorkflowState → Option Fields
latest_state id [] = none
latest_state id (s ∷ ss) =
    if uuid_eq s.task_id id then unmarshal_map s.state_data else latest_state id ss

unfoldable pub query_get_latest_workflow_state : Env → Uuid → World → Option Fields
unfolding latest_state
query_get_latest_workflow_state env id w =
    if env.fails get_latest_workflow_state then none else latest_state id w.states

-- The prompt of the message, with its variables resolved.
unfoldable pub message_prompt : Env → Task → Option Fields → World → String
message_prompt env t payload w =
    resolve_prompt_variables env (trace_input env t "Executor Started" t.agent_prompt w) t.user_id
      t.agent_prompt payload (query_get_latest_workflow_state env t.id w)

-- payloadMap
unfoldable pub task_message : Env → Task → Option Fields → World → TriggerMessage
task_message env t payload w = record {
  user_id = t.user_id;
  task_id = format_uuid t.id;
  prompt = message_prompt env t payload w;
  execution_id = execution_id_of env t;
  trigger_type = t.trigger_type;
  trigger_config = t.trigger_config;
  trigger_payload = payload;
}

unfoldable pub deliver : Env → Task → Option Fields → World → World
deliver env t payload w =
    let resolved =
      trace_output env t "Prompt Variables Resolved"
        (mask_sensitive_data env (message_prompt env t payload w))
        (trace_input env t "Executor Started" t.agent_prompt w) in
    elim (delivery_error (env.publish t.user_id)) [
      | some message ↦ delivery_failed env t message resolved
      | none ↦ delivered env t (task_message env t payload w) resolved
    ]

-- handleDispatchTask
unfoldable pub handle_dispatch_task : Env → Task → Option Fields → World → World
handle_dispatch_task env t payload w =
    if needs_approval t
    then pause_for_approval env t w
    else if not (env.is_online t.user_id)
    then miss_task env t w
    else if t.task_type == "native_action"
    then run_native env t payload w
    else deliver env t payload w
