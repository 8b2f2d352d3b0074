-- ===== src/Store/Queries.antt =====
-- db/queries.sql.go: the statements on the table `tasks` and the tables that hang on it.
-- A call that fails leaves the tables alone. A status outside the table's CHECK makes its call fail.
use gsactions_mcp.Common.{
  ◌==◌, String, Bool, false, ◌&&◌, not, Option, none, some, List, [], ◌∷◌, if◌then◌else◌, length,
  any,
}
use gsactions_mcp.Common.Int.{ℤ, pos, ltb_ℤ}
use gsactions_mcp.Store.{
  Time, Task, TaskLog, Trace, World, Query, create_execution_trace, create_task_log, move_to_dlq,
  update_task_next_run, update_task_status, update_task_status_and_failure_count,
  update_task_approval_status, update_task_approval_status_and_last_run,
  update_task_status_and_last_run, complete_task_query, get_dependent_tasks_to_trigger,
  get_dependent_tasks, get_task_output, check_task_ownership, update_task_status_by_user_id,
  reset_task_failure_count, delete_task_query, get_task_by_id, get_dispatchable_task_by_id,
  reap_stuck_tasks, Env, status_active, status_paused, status_processing, status_completed,
  status_error, status_halted,
}
use gsactions_mcp.Uuid.{Uuid, uuid_eq}

abbrev statuses : List String
statuses =
    status_active ∷ status_paused ∷ status_processing ∷ status_completed ∷ status_error
    ∷ status_halted ∷ []

-- CHECK (status IN (...))
unfoldable pub status_allowed : String → Bool
status_allowed s = any (λ a. a == s) statuses

-- UPDATE tasks SET ... WHERE ...
unfoldable pub update_where : (Task → Bool) → (Task → Task) → List Task → List Task
update_where p f [] = []
update_where p f (t ∷ ts) = (if p t then f t else t) ∷ update_where p f ts

abbrev pub has_id : Uuid → Task → Bool
has_id id t = uuid_eq t.id id

abbrev pub owned : Uuid → String → Task → Bool
owned id user t = uuid_eq t.id id && t.user_id == user

-- SELECT * FROM tasks WHERE ..., as :one
unfoldable pub find_where : (Task → Bool) → List Task → Option Task
find_where p [] = none
find_where p (t ∷ ts) = if p t then some t else find_where p ts

-- SELECT * FROM tasks WHERE ..., as :many
unfoldable pub filter_where : (Task → Bool) → List Task → List Task
filter_where p [] = []
filter_where p (t ∷ ts) = if p t then t ∷ filter_where p ts else filter_where p ts

abbrev zero_uuid : Uuid
zero_uuid = 0 ∷ 0 ∷ 0 ∷ 0 ∷ 0 ∷ 0 ∷ 0 ∷ 0 ∷ 0 ∷ 0 ∷ 0 ∷ 0 ∷ 0 ∷ 0 ∷ 0 ∷ 0 ∷ []

unfoldable pub exec : Env → Query → (World → World) → World → World
exec env q f w = if env.fails q then w else f w

-- An UPDATE of the status of some rows, with other columns.
unfoldable pub update_rows : Env → Query → String → (Task → Bool) → (Task → Task) → World → World
unfolding exec
update_rows env q status p f w =
    exec env q
      (λ v. if status_allowed status then record v { tasks = update_where p f v.tasks } else v) w

abbrev pub depends_on : Uuid → Task → Bool
depends_on id t = elim t.depends_on_task_id [ none ↦ false | some parent ↦ uuid_eq parent id ]

abbrev pub is_locked_by : String → Option String → Bool
is_locked_by worker none = false
is_locked_by worker (some w) = w == worker

abbrev latest_output : Uuid → List Trace → Option (Option String)
latest_output id [] = none
latest_output id (e ∷ es) = if uuid_eq e.task_id id then some e.output_data else latest_output id es

abbrev text_of : Option (Option String) → Option String
text_of none = none
text_of (some none) = some ""
text_of (some (some s)) = some s

abbrev pub new_trace : Uuid → String → String → Trace
new_trace id execution step = record {
  task_id = id;
  execution_id = execution;
  step_name = step;
  input_data = none;
  output_data = none;
  is_error = false;
  error_message = none;
}

module _ (env : Env) where
  unfoldable pub query_create_execution_trace : Trace → World → World
  query_create_execution_trace trace =
      exec env create_execution_trace λ w. record w { traces = trace ∷ w.traces }

  -- The new row's id; the zero UUID on an error.
  unfoldable pub query_create_task_log : TaskLog → World → World × Uuid
  query_create_task_log row w =
      if env.fails create_task_log
      then (w, zero_uuid)
      else (record w { logs = row ∷ w.logs }, env.fresh_id (length w.logs))

  unfoldable pub query_move_to_dlq : Uuid → String → World → World
  query_move_to_dlq id message = exec env move_to_dlq λ w. record w { dlq = (id, message) ∷ w.dlq }

  -- The output of the task's latest trace, if the task belongs to the user: an empty text for NULL,
  -- `none` for an error or no row.
  unfoldable pub query_get_task_output : Uuid → String → World → Option String
  query_get_task_output id user w =
      if env.fails get_task_output
      then none
      else if any (owned id user) w.tasks
      then text_of (latest_output id w.traces)
      else none

  unfoldable pub query_update_task_next_run : String → Time → Uuid → World → World
  query_update_task_next_run status next id =
      update_rows env update_task_next_run status (has_id id)
        λ t. record t { status = status; locked_by = none; next_run = next }

  unfoldable pub query_update_task_status : String → Uuid → String → World → World
  query_update_task_status status id user =
      update_rows env update_task_status status (owned id user)
        λ t. record t { status = status; locked_by = none }

  unfoldable pub query_update_task_status_and_failure_count :
      String → ℤ → ℤ → Uuid → String → World → World
  query_update_task_status_and_failure_count status failures retries id user =
      update_rows env update_task_status_and_failure_count status (owned id user) λ t. record t {
        status = status;
        locked_by = none;
        failure_count = failures;
        retry_count = retries;
      }

  unfoldable pub query_update_task_approval_status : String → String → Uuid → String → World → World
  query_update_task_approval_status approval status id user =
      update_rows env update_task_approval_status status (owned id user)
        λ t. record t { last_approval_status = approval; status = status; locked_by = none }

  unfoldable pub query_update_task_approval_status_and_last_run :
      String → String → Uuid → String → World → World
  query_update_task_approval_status_and_last_run approval status id user =
      update_rows env update_task_approval_status_and_last_run status (owned id user) λ t.
        record t {
          last_approval_status = approval;
          status = status;
          locked_by = none;
          last_run = some env.now;
        }

  unfoldable pub query_update_task_status_and_last_run : String → Uuid → String → World → World
  query_update_task_status_and_last_run status id user =
      update_rows env update_task_status_and_last_run status (owned id user)
        λ t. record t { status = status; locked_by = none; last_run = some env.now }

  -- fn_complete_task
  unfoldable pub query_complete_task : Uuid → Time → String → World → World
  query_complete_task id next status = update_rows env complete_task_query status (has_id id) λ t.
      record t {
        status = status;
        locked_by = none;
        last_run = some env.now;
        failure_count = pos 0;
        retry_count = pos 0;
        next_run = next;
        last_approval_status = if t.requires_approval then "pending" else t.last_approval_status;
      }

  unfoldable pub query_update_task_status_by_user_id : String → Uuid → String → World → World
  query_update_task_status_by_user_id status id user =
      update_rows env update_task_status_by_user_id status (owned id user)
        λ t. record t { status = status; locked_by = none }

  unfoldable pub query_reset_task_failure_count : String → Uuid → String → World → World
  query_reset_task_failure_count status id user =
      update_rows env reset_task_failure_count status (owned id user)
        λ t. record t { status = status; failure_count = pos 0 }

  -- The tasks that wait for `id` and are to be triggered; a waiting task has its parent's user.
  unfoldable pub query_get_dependent_tasks_to_trigger : Uuid → World → Option (List Task)
  query_get_dependent_tasks_to_trigger id w =
      if env.fails get_dependent_tasks_to_trigger
      then none
      else elim (find_where (has_id id) w.tasks) [
        | none ↦ some []
        | some parent ↦ some (
            filter_where
              (λ t.
                depends_on id t
                && t.trigger_on_completion
                && t.status == status_active
                && t.user_id == parent.user_id)
              w.tasks)
      ]

  unfoldable pub query_get_dependent_tasks : Uuid → World → Option (List Task)
  query_get_dependent_tasks id w =
      if env.fails get_dependent_tasks then none else some (filter_where (depends_on id) w.tasks)

  unfoldable pub query_get_task_by_id : Uuid → String → World → Option Task
  query_get_task_by_id id user w =
      if env.fails get_task_by_id then none else find_where (owned id user) w.tasks

  unfoldable pub query_get_dispatchable_task_by_id : Uuid → String → String → World → Option Task
  query_get_dispatchable_task_by_id id user locked_by w =
      if env.fails get_dispatchable_task_by_id
      then none
      else find_where
          (λ t.
            owned id user t && t.status == status_processing && is_locked_by locked_by t.locked_by)
          w.tasks

  unfoldable pub query_check_task_ownership : Uuid → String → World → Option Bool
  query_check_task_ownership id user w =
      if env.fails check_task_ownership then none else some (any (owned id user) w.tasks)

  -- What the foreign keys do to other rows is left out.
  unfoldable pub query_delete_task : Uuid → String → World → World
  query_delete_task id user =
      exec env delete_task_query
        λ w. record w { tasks = filter_where (λ t. not (owned id user t)) w.tasks }

  unfoldable pub query_reap_stuck_tasks : Time → World → World
  query_reap_stuck_tasks threshold = exec env reap_stuck_tasks λ w. record w {
    tasks =
        update_where (λ t. t.status == status_processing && ltb_ℤ t.next_run threshold)
          (λ t. record t { status = status_active; locked_by = none }) w.tasks;
  }
