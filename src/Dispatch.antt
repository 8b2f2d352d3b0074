-- ===== src/Dispatch.antt =====
-- cmd/server/scheduler.go handleDispatchTask: what becomes of a task that this worker has claimed.
-- The branches follow the source: approval, an offline user, a native action, delivery over Redis.
-- Traces are written with CreateExecutionTrace and outcomes counted by observeTaskOutcome.
pub mod Retry
pub mod Branches
pub mod Rows
pub mod RetryLaws
pub mod Exhaustion
pub mod States
pub mod Triggers
pub mod Outcomes
pub mod Laws
pub mod Loops
pub mod Executions
use mathlib.Core.Option
use gsactions_mcp.Common.{
  ◌==◌, ℕ, zero, suc, ◌/◌, ◌%◌, String, ◌<>◌, true, ◌||◌, not, Option, some, List, [], ◌∷◌, ◌++◌,
  ltb, if◌then◌else◌, from_chars,
}
use gsactions_mcp.Common.Int.{ℤ, pos, negsuc}
use gsactions_mcp.Json.{text_or_empty}
use gsactions_mcp.Store.{Task, World, get_user_email, Env}
use gsactions_mcp.Store.Queries.{new_trace, query_create_execution_trace, query_create_task_log}
use gsactions_mcp.Template.{Chars}
use gsactions_mcp.Uuid.{Uuid, hex_char, format_uuid}

-- fmt %d of a number
unfoldable decimal : ℕ → ℕ → Chars → Chars
decimal zero n out = out
decimal (suc fuel) n out =
    let digit = hex_char (n % 10) in
    let rest = decimal fuel (n / 10) (digit ∷ out) in if ltb n 10 then digit ∷ out else rest

-- An int64 has at most 19 digits.
unfoldable pub show_int : ℤ → String
unfolding decimal hex_char
show_int (pos n) = from_chars (decimal 20 n [])
show_int (negsuc n) = "-" <> from_chars (decimal 20 (suc n) [])

-- fmt.Sprintf("%s-%d", taskID, now)
unfoldable pub execution_id_of : Env → Task → String
execution_id_of env t = format_uuid t.id <> ("-" <> show_int env.now)

unfoldable pub observe_task_outcome : String → World → World
observe_task_outcome outcome w = record w { outcomes = outcome ∷ w.outcomes }

-- PublishEvent; a Redis error is only logged, and is not modelled as a lost event.
unfoldable pub publish_event : String → String → List (String × String) → World → World
publish_event user type payload w = record w {
  events = record { user_id = user; event_type = type; payload = payload } ∷ w.events;
}

-- The email of the task's user, empty if there is none.
unfoldable email_of : Env → String → String
email_of env user = if env.fails get_user_email then "" else text_or_empty (env.user_email user)

-- sendFailureEmail of cmd/server/email.go: the address and the subject.
unfoldable pub send_failure_email : Env → String → String → World → World
unfolding email_of
send_failure_email env user name w =
    if not env.mail_configured || email_of env user == "" then w else record w {
      emails = (email_of env user, "Action Required: Task '" <> (name <> "' Failed")) ∷ w.emails;
    }

-- The payload of a task_executed event.
unfoldable executed_payload : Env → Task → Uuid → String → String × String → List (String × String)
executed_payload env t log_id status detail =
    ("id", format_uuid log_id)
    ∷ ("task_id", format_uuid t.id)
    ∷ ("status", status)
    ∷ ("execution_time", env.format_rfc3339 env.now)
    ∷ ("task_name", t.name)
    ∷ ("user_email", email_of env t.user_id)
    ∷ detail
    ∷ []

-- CreateTaskLog, and the event that tells of it.
unfoldable pub log_and_publish :
    Env
    → Task
    → String
    → Option String
    → Option String
    → String × String
    → List (String × String)
    → World
    → World
unfolding query_create_task_log publish_event executed_payload email_of
log_and_publish env t status error response detail more w =
    let (logged, log_id) =
      query_create_task_log env
        (record {
          task_id = t.id;
          user_id = t.user_id;
          status = status;
          error_message = error;
          llm_response = response;
        })
        w in
    publish_event t.user_id "task_executed" (executed_payload env t log_id status detail ++ more)
      logged

-- The three ways to say where a task stands in an error trace.
unfoldable pub trace_error : Env → Task → String → String → World → World
unfolding query_create_execution_trace
trace_error env t step message =
    query_create_execution_trace env (record (new_trace t.id (execution_id_of env t) step) {
      is_error = true;
      error_message = some message;
    })

unfoldable pub trace_output : Env → Task → String → String → World → World
unfolding query_create_execution_trace
trace_output env t step output =
    query_create_execution_trace env
      (record (new_trace t.id (execution_id_of env t) step) { output_data = some output })

unfoldable pub trace_input : Env → Task → String → String → World → World
unfolding query_create_execution_trace
trace_input env t step input =
    query_create_execution_trace env
      (record (new_trace t.id (execution_id_of env t) step) { input_data = some input })
