-- ===== src/Dispatch/Retry.antt =====
-- cmd/server/scheduler.go handleDispatchTask: retries with a growing delay, and the dead letters.
use gsactions_mcp.Common.{String, none, some, if◌then◌else◌}
use gsactions_mcp.Common.Int.{ℤ, pos, ◌+ℤ◌, ltb_ℤ, wrap32}
use gsactions_mcp.Dispatch.{send_failure_email}
use gsactions_mcp.Schedule.{minutes_duration, backoff_minutes, next_retry, retry_limit}
use gsactions_mcp.Store.{Task, World, Env, status_active, status_error}
use gsactions_mcp.Store.Queries.{
  query_move_to_dlq, query_update_task_next_run, query_update_task_status_and_failure_count,
}

-- The task is parked in the dead letter queue.
unfoldable pub give_up : Env → Task → String → ℤ → World → World
give_up env t message retries w = send_failure_email env t.user_id t.name (
    query_move_to_dlq env t.id message (
      query_update_task_status_and_failure_count env status_error
        (wrap32 (t.failure_count +ℤ pos 1)) retries t.id t.user_id w))

-- The task is active again, and due after the delay. A shift by a negative count panics, and the
-- goroutine ends there.
unfoldable pub schedule_retry : Env → Task → ℤ → World → World
schedule_retry env t retries w = elim (backoff_minutes t.backoff_strategy retries) [
  | none ↦ w
  | some minutes ↦
      query_update_task_next_run env status_active (env.now +ℤ minutes_duration minutes) t.id (
        query_update_task_status_and_failure_count env status_active
          (wrap32 (t.failure_count +ℤ pos 1)) retries t.id t.user_id w)
]

-- if retryCount > maxRetries { ... } else { ... }, after a failed delivery
unfoldable pub retry_or_give_up : Env → Task → String → World → World
retry_or_give_up env t message w =
    let retries = next_retry t.retry_count in
    if ltb_ℤ (retry_limit t.max_retries) retries
    then give_up env t message retries w
    else schedule_retry env t retries w
