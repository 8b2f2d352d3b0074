-- ===== src/Sampling.antt =====
-- cmd/server/session.go MaintainHeartbeat: what a node of the user does with a message that it gets over
-- Redis. The connection's heartbeat, the trace context, the deadlines and the count of secrets in the
-- events are left out.
pub mod Writes
pub mod Locks
pub mod Kept
pub mod Once
pub mod Merging
pub mod Omission
pub mod Delivery
pub mod Failures
use gsactions_mcp.Answer.{Client}
use gsactions_mcp.Common.{
  ◌==◌, String, ◌<>◌, inl, inr, Bool, true, false, ◌&&◌, ◌||◌, not, Option, none, some, [], ◌∷◌,
  if◌then◌else◌, is_none, to_chars, from_chars,
}
use gsactions_mcp.Common.Int.{pos, ltb_ℤ}
use gsactions_mcp.Completion.{complete_task}
use gsactions_mcp.Conditions.{evaluate_workflow_loop}
use gsactions_mcp.Dispatch.{observe_task_outcome, send_failure_email, log_and_publish}
use gsactions_mcp.Dispatch.Branches.{execution_state}
use gsactions_mcp.Json.{
  Json, null, object, Fields, end, field, get_field, set_field, as_object, text_or_empty,
  unmarshal_map,
}
use gsactions_mcp.Privacy.{mask_sensitive_data, sanitize_llm_response_for_storage}
use gsactions_mcp.Prompt.{Vault, query_get_workflow_state, resolve_prompt}
use gsactions_mcp.Router.Council.{execute_swarm_router}
use gsactions_mcp.Router.Debate.{execute_decision_router}
use gsactions_mcp.Sampling.Writes.{
  query_increment_task_failure_count, query_upsert_workflow_state, set_nx_lock,
}
use gsactions_mcp.Schedule.{calculate_next_run}
use gsactions_mcp.Store.{
  Task, Trace, TriggerMessage, World, Env, status_active, status_paused, status_completed,
  status_error,
}
use gsactions_mcp.Store.Queries.{
  new_trace, query_create_execution_trace, query_get_task_output, query_update_task_status,
  query_get_task_by_id,
}
use gsactions_mcp.Uuid.{Uuid, parse_uuid}

abbrev pub lock_key : String → String
lock_key execution = "lock:exec:" <> execution

-- Traces under the execution id of the message.
unfoldable pub trace_of : Env → Uuid → String → String → Trace
trace_of env id execution step = new_trace id execution step

unfoldable pub traced_input : Env → Task → String → String → String → World → World
traced_input env t execution step text =
    query_create_execution_trace env
      (record (trace_of env t.id execution step) { input_data = some text })

unfoldable pub traced_output : Env → Task → String → String → String → World → World
traced_output env t execution step text =
    query_create_execution_trace env
      (record (trace_of env t.id execution step) { output_data = some text })

unfoldable pub traced_error : Env → Task → String → String → String → World → World
traced_error env t execution step text =
    query_create_execution_trace env
      (record (trace_of env t.id execution step) { is_error = true; error_message = some text })

abbrev pub flag_text : Bool → String
flag_text true = "true"
flag_text false = "false"

-- After the third failure the task is in error, and before that active again.
unfoldable pub count_failure : Env → Task → World → World
count_failure env t w =
    let (counted, failures) = query_increment_task_failure_count env t.id t.user_id w in
    if ltb_ℤ failures (pos 3)
    then query_update_task_status env status_active t.id t.user_id counted
    else send_failure_email env t.user_id t.name
        (query_update_task_status env status_error t.id t.user_id counted)

unfoldable pub sampling_failed : Env → Task → String → Bool → String → World → World
sampling_failed env t execution chained error w = count_failure env t (
    log_and_publish env t "failure" (some error) none ("error_message", error)
      (("chained", flag_text chained) ∷ [])
      (traced_error env t execution "LLM Sampling Failed" error
        (observe_task_outcome "execution_failure" w)))

-- currentState before the update: an empty map where nothing is stored or what is stored is no map;
-- `none` is the nil map that a stored null leaves.
unfoldable pub current_state : Env → Uuid → String → World → Option Fields
current_state env id execution w = elim (query_get_workflow_state env id execution w) [
  | some (some (object fs)) ↦ some fs
  | some (some null) ↦ none
  | _ ↦ some end
]

unfoldable pub merge_fields : Fields → Fields → Fields
merge_fields end into = into
merge_fields (field k v fs) into = merge_fields fs (set_field k v into)

-- The state update of an answer. An assignment to a nil map panics, which ends the goroutine: `none`.
unfoldable pub store_update : Env → Uuid → String → Fields → World → Option World
store_update env id execution update w = elim (current_state env id execution w) [
  | some state ↦
      some (query_upsert_workflow_state env id execution (object (merge_fields update state)) w)
  | none ↦ elim update [
    | end ↦ some (query_upsert_workflow_state env id execution null w)
    | field k v fs ↦ none
  ]
]

abbrev update_of : Option Fields → Option Fields
update_of none = none
update_of (some fs) = as_object (get_field "state_update" fs)

unfoldable pub apply_update : Env → Client → Uuid → String → String → World → Option World
apply_update env client id execution response w =
    elim (update_of (unmarshal_map (client.parse_json response))) [
      | none ↦ some w
      | some update ↦ store_update env id execution update w
    ]

-- The answer as it is stored.
unfoldable pub stored_response : Env → Client → Option Json → String
stored_response env client none =
    sanitize_llm_response_for_storage env "No response provided by LLM"
stored_response env client (some res) = sanitize_llm_response_for_storage env (env.marshal_json res)

abbrev pause_task_row : Env → Task → World → World
pause_task_row env t = query_update_task_status env status_paused t.id t.user_id

-- Where a sampled task goes next.
unfoldable pub advance_sampled : Env → Task → TriggerMessage → World → World
advance_sampled env t msg w =
    if evaluate_workflow_loop env.floats t.loop_condition
      (execution_state env t.id msg.execution_id w)
    then complete_task env t.user_id msg.task_id env.now status_active w
    else if msg.trigger_type == "date"
    then complete_task env t.user_id msg.task_id env.now status_completed w
    else elim (unmarshal_map msg.trigger_config) [
      | none ↦ pause_task_row env t w
      | some config ↦ elim (calculate_next_run env msg.trigger_type config env.now) [
        | none ↦ pause_task_row env t w
        | some next ↦ complete_task env t.user_id msg.task_id next status_active w
      ]
    ]

unfoldable pub sampling_logged : Env → Task → TriggerMessage → Bool → String → World → World
sampling_logged env t msg chained response w =
    log_and_publish env t "success" none (some response) ("llm_response", response)
      (("chained", flag_text chained) ∷ [])
      (traced_output env t msg.execution_id "LLM Sampling Success" response
        (observe_task_outcome "execution_success" w))

unfoldable pub sampling_succeeded :
    Env → Client → Task → TriggerMessage → Bool → Option Json → World → World
sampling_succeeded env client t msg chained res w =
    let response = stored_response env client res in
    elim (apply_update env client t.id msg.execution_id response w) [
      | none ↦ w
      | some v ↦ advance_sampled env t msg (sampling_logged env t msg chained response v)
    ]

unfoldable pub sample : Env → Client → Task → TriggerMessage → String → Bool → World → World
sample env client t msg prompt chained w =
    let asked =
      traced_input env t msg.execution_id "LLM Sampling" (mask_sensitive_data env prompt) w in
    elim (client.request_sampling 0 prompt) [
      | inl res ↦ sampling_succeeded env client t msg chained res asked
      | inr error ↦ sampling_failed env t msg.execution_id chained error asked
    ]

-- The prompt is resolved before the lock of the execution is taken.
unfoldable pub resolved_prompt : Env → Vault → Task → TriggerMessage → World → String × Bool
resolved_prompt env vault t msg w =
    let (text, chained) =
      resolve_prompt env vault
        (traced_input env t msg.execution_id "Prompt Resolution" msg.prompt w) t.user_id t.id
        msg.execution_id (to_chars msg.prompt) t.depends_on_task_id msg.trigger_payload in
    (from_chars text, chained)

unfoldable pub prompt_traced : Env → Vault → Task → TriggerMessage → World → World
prompt_traced env vault t msg w =
    traced_output env t msg.execution_id "Prompt Resolution Success"
      (mask_sensitive_data env (resolved_prompt env vault t msg w).0)
      (traced_input env t msg.execution_id "Prompt Resolution" msg.prompt w)

unfoldable pub run_prompt : Env → Client → Vault → Task → TriggerMessage → World → World
run_prompt env client vault t msg w =
    let (prompt, chained) = resolved_prompt env vault t msg w in
    let ready = prompt_traced env vault t msg w in
    elim (set_nx_lock env (lock_key msg.execution_id) ready) [
      | none ↦ ready
      | some locked ↦ sample env client t msg prompt chained locked
    ]

unfoldable pub is_router : Task → Bool
is_router t = t.task_type == "decision_router" || t.task_type == "swarm_router"

-- A router gets the output of its parent.
unfoldable pub parent_output : Env → Task → World → String
parent_output env t w = elim t.depends_on_task_id [
  | none ↦ ""
  | some parent ↦ text_or_empty (query_get_task_output env parent t.user_id w)
]

unfoldable pub run_router : Env → Client → Task → World → World
run_router env client t w =
    if t.task_type == "swarm_router"
    then execute_swarm_router env client t (parent_output env t w) w
    else execute_decision_router env client t (parent_output env t w) w

-- The checks on the message's fields: a trigger configuration that is NULL arrives as an empty text.
unfoldable pub is_complete : TriggerMessage → Bool
is_complete msg =
    not (msg.task_id == "")
    && not (msg.prompt == "")
    && not (msg.execution_id == "")
    && not (msg.trigger_type == "")
    && not (is_none msg.trigger_config)

-- The goroutine that a message starts; its user is the connection's.
unfoldable pub handle_trigger : Env → Client → Vault → String → TriggerMessage → World → World
handle_trigger env client vault user msg w =
    if not (is_complete msg) then w else elim (parse_uuid msg.task_id) [
      | none ↦ w
      | some id ↦ elim (query_get_task_by_id env id user w) [
        | none ↦ w
        | some t ↦
            if is_router t then run_router env client t w else run_prompt env client vault t msg w
      ]
    ]
