-- ===== src/Dispatch/RetryLaws.antt =====
-- What a failed run does to the row of its task.
use gsactions_mcp.Common.{
  ℕ, ◌+◌, ◌*◌, ◌≤◌, ◌<◌, String, ◌≡◌, ap, ◌∙◌, true, false, none, some, ◌∷◌, arith,
}
use gsactions_mcp.Common.Int.{ℤ, pos, ◌+ℤ◌, ltb_ℤ, wrap32}
use gsactions_mcp.Dispatch.{send_failure_email}
use gsactions_mcp.Dispatch.Retry.{give_up, schedule_retry, retry_or_give_up}
use gsactions_mcp.Dispatch.Rows.{
  tasks-send_failure_email, tasks-query_move_to_dlq, row-query_update_task_next_run,
  row-query_update_task_status_and_failure_count,
}
use gsactions_mcp.Schedule.{minutes_duration, backoff_minutes, next_retry, retry_limit}
use gsactions_mcp.Schedule.Backoff.{intended_minutes, backoff_exact}
use gsactions_mcp.Store.{Task, World, move_to_dlq, Env, Up, status_active, status_error}
use gsactions_mcp.Store.Laws.{row, allowed_active, allowed_error}
use gsactions_mcp.Store.Queries.{
  has_id, find_where, update_rows, query_move_to_dlq, query_update_task_status_and_failure_count,
}
use gsactions_mcp.Uuid.{Uuid}

-- The row after a retry was scheduled, and after the task was given up.
abbrev pub retried : Env → Task → ℤ → ℤ → Task
retried env t retries delay = record t {
  status = status_active;
  locked_by = none;
  failure_count = wrap32 (t.failure_count +ℤ pos 1);
  retry_count = retries;
  next_run = env.now +ℤ delay;
}

abbrev pub given_up : Task → ℤ → Task
given_up t retries = record t {
  status = status_error;
  locked_by = none;
  failure_count = wrap32 (t.failure_count +ℤ pos 1);
  retry_count = retries;
}

pub row-tasks : (id : Uuid) (v w : World) → v.tasks ≡ w.tasks → row id v ≡ row id w
row-tasks id v w e = ap (λ ts. find_where (has_id id) ts) e

pub next_retry_pos : (n : ℕ) → n ≤ 1000000 → next_retry (pos n) ≡ pos (n + 1)
unfolding next_retry wrap32 ◌+ℤ◌
next_retry_pos n h = ground arith

module _ (env : Env) (up : Up env) (t : Task) (message : String) (w : World) where
  row-give_up :
      (retries : ℤ)
      → row t.id w ≡ some t
      → row t.id (give_up env t message retries w) ≡ some (given_up t retries)
  unfolding give_up
  row-give_up retries here =
      rw (tasks-send_failure_email, tasks-query_move_to_dlq)
        (row-query_update_task_status_and_failure_count env up t w here status_error _ retries
          allowed_error)

  row-schedule_retry :
      (retries minutes : ℤ)
      → row t.id w ≡ some t
      → backoff_minutes t.backoff_strategy retries ≡ some minutes
      → row t.id (schedule_retry env t retries w)
        ≡ some (retried env t retries (minutes_duration minutes))
  unfolding schedule_retry
  row-schedule_retry retries minutes here delay =
      rw (delay, schedule_retry)
        (row-query_update_task_next_run env up
          (record t {
            status = status_active;
            locked_by = none;
            failure_count = wrap32 (t.failure_count +ℤ pos 1);
            retry_count = retries;
          })
          _
          (row-query_update_task_status_and_failure_count env up t w here status_active _ retries
            allowed_active)
          _)

  dlq-give_up : (retries : ℤ) → (give_up env t message retries w).dlq ≡ (t.id, message) ∷ w.dlq
  unfolding give_up send_failure_email query_move_to_dlq query_update_task_status_and_failure_count
      update_rows
  dlq-give_up retries = ground (arith, up move_to_dlq)

  -- The delay before a retry, for a count that the delay is exact for.
  minutes_of_retry :
      (n : ℕ)
      → n ≤ 27
      → (m : ℤ) × (backoff_minutes t.backoff_strategy (pos n) ≡ some m)
        × (minutes_duration m ≡ pos (intended_minutes t.backoff_strategy n * 60000000000))
  minutes_of_retry n h = backoff_exact t.backoff_strategy n h

  again :
      (next : ℤ)
      → next_retry t.retry_count ≡ next
      → ltb_ℤ (retry_limit t.max_retries) next ≡ false
      → retry_or_give_up env t message w ≡ schedule_retry env t next w
  unfolding retry_or_give_up
  again next e left = rw e (rw left)

  -- A failed run of a task that has retries left makes it active again: one more retry and one more
  -- failure are counted, the lock is gone, and the next run is 2^n or 2n minutes from now, for the
  -- exponential and the linear strategy. This is for calls that succeed, counts up to 27, and a task
  -- whose row is the one that was claimed.
  pub retry_or_give_up_again :
      (n : ℕ)
      → row t.id w ≡ some t
      → t.retry_count ≡ pos n
      → n < 27
      → ltb_ℤ (retry_limit t.max_retries) (pos (n + 1)) ≡ false
      → row t.id (retry_or_give_up env t message w)
        ≡ some (
            retried env t
              (pos (n + 1))
              (pos (intended_minutes t.backoff_strategy (n + 1) * 60000000000)))
  unfolding retry_or_give_up
  retry_or_give_up_again n here count small left =
      let (m, delay, exact) = minutes_of_retry (n + 1) (omega arith) in
      let scheduled =
        again (pos (n + 1)) (ap next_retry count ∙ next_retry_pos n (omega arith)) left in
      rw scheduled (
        row-schedule_retry (pos (n + 1)) m here delay
        ∙ ap (λ d. some (retried env t (pos (n + 1)) d)) exact)

  -- A failed run of a task that has no retry left parks it: the status is error, the lock is gone,
  -- and the dead letter queue gains one entry with the message.
  pub retry_or_give_up_last :
      row t.id w ≡ some t
      → ltb_ℤ (retry_limit t.max_retries) (next_retry t.retry_count) ≡ true
      → (row t.id (retry_or_give_up env t message w) ≡ some (given_up t (next_retry t.retry_count)))
        × ((retry_or_give_up env t message w).dlq ≡ (t.id, message) ∷ w.dlq)
  unfolding retry_or_give_up
  retry_or_give_up_last here spent =
      rw spent (row-give_up (next_retry t.retry_count) here, dlq-give_up (next_retry t.retry_count))
