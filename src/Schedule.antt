-- ===== src/Schedule.antt =====
-- cmd/server/scheduler.go: when a task runs next, and after which delay a failed one is retried.
-- Times and durations are nanoseconds; a duration is an int64, and its arithmetic wraps.
pub mod Backoff
use gsactions_mcp.Common.{◌==◌, ℕ, zero, ◌^◌, String, ◌<>◌, Option, none, some, ltb, if◌then◌else◌}
use gsactions_mcp.Common.Int.{ℤ, pos, negsuc, ◌+ℤ◌, ◌*ℤ◌, wrap64, wrap32}
use gsactions_mcp.Json.{Fields, get_field, as_string, as_number}
use gsactions_mcp.Store.{Time, Env}

abbrev pub minute : ℤ
minute = pos 60000000000

-- time.Duration(minutes) * time.Minute
unfoldable pub minutes_duration : ℤ → ℤ
minutes_duration m = wrap64 (m *ℤ minute)

-- "CRON_TZ=<tz> <expr>" where the configuration names a timezone
cron_expression : String → Option String → String
cron_expression expr none = expr
cron_expression expr (some tz) = if tz == "" then expr else "CRON_TZ=" <> (tz <> (" " <> expr))

abbrev next_cron : Env → Fields → Time → Option String → Option Time
next_cron env config now none = none
next_cron env config now (some expr) =
    env.cron_next (cron_expression expr (as_string (get_field "timezone" config))) now

abbrev next_interval : Env → Time → Option ℕ → Option Time
next_interval env now none = none
next_interval env now (some minutes) = some (now +ℤ minutes_duration (env.floats.truncate minutes))

abbrev next_date : Env → Option String → Option Time
next_date env none = none
next_date env (some date) = env.parse_rfc3339 date

-- calculateNextRun; `none` stands for each of its errors.
unfoldable pub calculate_next_run : Env → String → Fields → Time → Option Time
unfolding cron_expression
calculate_next_run env trigger_type config now =
    if trigger_type == "cron"
    then next_cron env config now (as_string (get_field "cron" config))
    else if trigger_type == "interval"
    then next_interval env now (as_number (get_field "minutes" config))
    else if trigger_type == "date"
    then next_date env (as_string (get_field "date" config))
    else none

-- 1 << n of an int, by a count that is not negative; from 64 on no bit is left.
unfoldable pub shift_one : ℕ → ℤ
shift_one n = if ltb n 64 then wrap64 (pos (2 ^ n)) else pos 0

-- The delay in minutes before retry number `retries`. A negative shift count panics, hence `none`.
unfoldable pub backoff_minutes : String → ℤ → Option ℤ
backoff_minutes strategy (pos n) =
    some (if strategy == "exponential" then shift_one n else wrap64 (pos n *ℤ pos 2))
backoff_minutes strategy (negsuc n) =
    if strategy == "exponential" then none else some (wrap64 (negsuc n *ℤ pos 2))

-- retryCount := t.RetryCount.Int32 + 1
unfoldable pub next_retry : ℤ → ℤ
next_retry count = wrap32 (count +ℤ pos 1)

-- maxRetries, with the fallback for 0
unfoldable pub retry_limit : ℤ → ℤ
retry_limit (pos zero) = pos 3
retry_limit m = m
