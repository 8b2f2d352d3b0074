-- ===== src/Prompt.antt =====
-- cmd/server/scheduler.go resolvePromptVariables, which runs at dispatch, and
-- cmd/server/prompt_resolver.go resolvePrompt, which runs where the prompt is sampled.
pub mod Injection
use mathlib.Core.Option
use gsactions_mcp.Common.{
  ◌==◌, ℕ, String, Bool, true, false, ◌&&◌, Option, none, some, List, [], ◌∷◌, ◌++◌, if◌then◌else◌,
  any, to_chars, from_chars,
}
use gsactions_mcp.Json.{Json, Fields, Floats, get_field, unmarshal_map, show_value}
use gsactions_mcp.Store.{TaskLog, WorkflowState, World, get_workflow_state, Env}
use gsactions_mcp.Store.Queries.{owned, query_get_task_output}
use gsactions_mcp.Template.{
  Chars, replace_all, secret_pattern, env_var_pattern, webhook_body_pattern, state_pattern,
  prompt_var_pattern,
}
use gsactions_mcp.Uuid.{Uuid, uuid_eq, parse_chars}

abbrev pub payload_value : Floats → Option Fields → Chars → Option Chars
payload_value f none key = none
payload_value f (some m) key =
    Option.map (λ v. to_chars (show_value f v)) (get_field (from_chars key) m)

-- {{task.ID.output}}: the latest output of a task of the user's
unfoldable pub task_output_value : Env → World → String → Chars → Option Chars
task_output_value env w user name = elim (parse_chars name) [
  | none ↦ none
  | some tid ↦ Option.map to_chars (query_get_task_output env tid user w)
]

-- resolvePromptVariables. A nil map has no key, so a pass over it changes nothing.
unfoldable pub resolve_prompt_variables :
    Env → World → String → String → Option Fields → Option Fields → String
unfolding task_output_value
resolve_prompt_variables env w user prompt trigger_payload state =
    let tasks = replace_all prompt_var_pattern (task_output_value env w user) (to_chars prompt) in
    let states = replace_all state_pattern (payload_value env.floats state) tasks in
    from_chars (replace_all webhook_body_pattern (payload_value env.floats trigger_payload) states)

-- What resolvePrompt reads outside the tables of `World`: the vault, Decrypt, the environment
-- variables of the task's workspace; `none` is an error.
pub record Vault : Type 0 where
  pub get_user_secret : String → String → Option (List ℕ)
  pub decrypt : List ℕ → Option String
  pub get_task_workspace_env_vars : Uuid → Option (List (String × String))

-- The text that stands for a secret, also where it is missing or cannot be read.
unfoldable pub secret_value : Vault → String → Chars → Chars
secret_value vault user name = elim (vault.get_user_secret user (from_chars name)) [
  | none ↦ to_chars "[SECRET " ++ (name ++ to_chars " NOT FOUND]")
  | some encrypted ↦ elim (vault.decrypt encrypted) [
    | none ↦ to_chars "[DECRYPTION ERROR]"
    | some plain ↦ to_chars plain
  ]
]

-- Step 1: {{secrets.NAME}}
unfoldable pub resolve_secrets : Vault → String → Chars → Chars
resolve_secrets vault user s = replace_all secret_pattern (λ n. some (secret_value vault user n)) s

-- The later of two variables of one name wins in envMap.
env_value : List (String × String) → Chars → Option Chars
env_value [] key = none
env_value ((name, value) ∷ vars) key = elim (env_value vars key) [
  | some v ↦ some v
  | none ↦ if name == from_chars key then some (to_chars value) else none
]

resolve_env : Option (List (String × String)) → Chars → Chars
unfolding env_value
resolve_env none s = s
resolve_env (some vars) s = replace_all env_var_pattern (env_value vars) s

-- GetWorkflowState: the state of one execution
unfoldable pub find_state : Uuid → String → List WorkflowState → Option WorkflowState
find_state id execution [] = none
find_state id execution (s ∷ ss) =
    if uuid_eq s.task_id id && s.execution_id == execution
    then some s
    else find_state id execution ss

unfoldable pub query_get_workflow_state : Env → Uuid → String → World → Option (Option Json)
unfolding find_state
query_get_workflow_state env id execution w =
    if env.fails get_workflow_state
    then none
    else Option.map (λ s. s.state_data) (find_state id execution w.states)

resolve_state : Env → Option (Option Json) → Chars → Chars
resolve_state env none s = s
resolve_state env (some column) s = elim (unmarshal_map column) [
  | none ↦ s
  | some m ↦ replace_all state_pattern (payload_value env.floats (some m)) s
]

latest_response : Uuid → List TaskLog → Option (Option String)
latest_response id [] = none
latest_response id (l ∷ ls) =
    if uuid_eq l.task_id id then some l.llm_response else latest_response id ls

-- Step 5: the context of the parent's latest response, and whether it was put in front.
chain : World → String → Option Uuid → Chars → Chars × Bool
unfolding latest_response
chain w user none s = (s, false)
chain w user (some parent) s =
    if any (owned parent user) w.tasks
    then elim (latest_response parent w.logs) [
      | some (some out) ↦ if out == "" then (s, false) else (
        to_chars "Context from previous task:\n"
            ++ (to_chars out ++ (to_chars "\n\nYour Prompt:\n" ++ s)),
        true,
      )
      | _ ↦ (s, false)
    ]
    else (s, false)

-- resolvePrompt, without the count of secrets that it reports.
unfoldable pub resolve_prompt :
    Env
    → Vault
    → World
    → String
    → Uuid
    → String
    → Chars
    → Option Uuid
    → Option Fields
    → Chars × Bool
unfolding resolve_env resolve_state query_get_workflow_state chain
resolve_prompt env vault w user id execution raw parent trigger_payload =
    let secrets = resolve_secrets vault user raw in
    let vars = resolve_env (vault.get_task_workspace_env_vars id) secrets in
    let body = replace_all webhook_body_pattern (payload_value env.floats trigger_payload) vars in
    chain w user parent (resolve_state env (query_get_workflow_state env id execution w) body)
