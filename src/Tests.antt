-- ===== src/Tests.antt =====
-- A concrete environment, a task and a state, at which the theorems are applied.
mod Dispatching
mod Scheduling
mod Parsing
mod Deciding
mod Tooling
mod Claiming
mod Admitting
mod Answering
mod Requesting
mod Connecting
mod Portal
mod Joining
mod Configuring
use gsactions_mcp.Common.{◌==◌, refl, inl, inr, true, false, none, some, [], ◌∷◌, ltb}
use gsactions_mcp.Common.Int.{pos}
use gsactions_mcp.Json.{object, end, Floats}
use gsactions_mcp.Store.{Task, World, Env, Up, status_processing}
use gsactions_mcp.Uuid.{Uuid}

abbrev no_floats : Floats
no_floats = record {
  truncate = λ x. pos x;
  less = λ a b. ltb a b;
  parse_float = λ s. none;
  show_float = λ x. "0";
  show_composite = λ j. "";
}

abbrev pub example_id : Uuid
example_id = 0 ∷ 1 ∷ 2 ∷ 3 ∷ 4 ∷ 5 ∷ 6 ∷ 7 ∷ 8 ∷ 9 ∷ 10 ∷ 11 ∷ 12 ∷ 13 ∷ 14 ∷ 7 ∷ []

abbrev pub new_id : Uuid
new_id = 9 ∷ 1 ∷ 2 ∷ 3 ∷ 4 ∷ 5 ∷ 6 ∷ 7 ∷ 8 ∷ 9 ∷ 10 ∷ 11 ∷ 12 ∷ 13 ∷ 14 ∷ 7 ∷ []

-- A worker whose calls succeed; "ann" has a node, and "bob" has none.
abbrev pub env_up : Env
env_up = record {
  fails = λ q. false;
  worker_id = "w1";
  now = pos 1000;
  floats = no_floats;
  fresh_id = λ n. new_id;
  fresh_version_id = λ n. new_id;
  user_email = λ u. some "ann@example.com";
  is_online = λ u. u == "ann";
  publish = λ u. inl 1;
  cron_next = λ e t. none;
  parse_rfc3339 = λ s. some (pos 5000);
  format_rfc3339 = λ t. "";
  execute_native_js = λ c p. inr "boom";
  marshal_json = λ j. "{}";
  replace_all_string = λ p s r. s;
  byte_length = λ s. pos 0;
  byte_prefix = λ n s. s;
  store_llm_responses = true;
  max_llm_response_chars = pos 4000;
  mail_configured = true;
}

abbrev pub up_now : Up env_up
up_now = λ q. refl

abbrev pub example_task : Task
example_task = record {
  id = example_id;
  user_id = "ann";
  name = "report";
  trigger_type = "cron";
  trigger_config = some (object end);
  agent_prompt = "hello";
  status = status_processing;
  locked_by = some "w1";
  next_run = pos 900;
  last_run = none;
  failure_count = pos 0;
  missed_task_policy = "skip";
  depends_on_task_id = none;
  requires_approval = false;
  last_approval_status = "";
  trigger_on_completion = false;
  task_type = "mcp_sampling";
  native_code = "";
  max_retries = pos 2;
  retry_count = pos 0;
  backoff_strategy = "exponential";
  ui_coordinates = none;
  branch_condition = none;
  loop_condition = none;
  swarm_config = none;
}

abbrev pub world_of : Task → World
world_of t = record {
  tasks = t ∷ [];
  logs = [];
  traces = [];
  states = [];
  dlq = [];
  events = [];
  triggers = [];
  outcomes = [];
  emails = [];
  audits = [];
  versions = [];
  templates = [];
  locks = [];
}
