-- ===== src/Tests/Scheduling.antt =====
-- The theorems on delays and on the rate limit, at concrete values.
use gsactions_mcp.Common.{ℕ, ◌≡◌, true, some, arith}
use gsactions_mcp.Common.Int.{pos, negsuc}
use gsactions_mcp.RateLimit.{Bucket, rate_limit_script}
use gsactions_mcp.RateLimit.Denials.{after_calls, after_calls_allowed}
use gsactions_mcp.RateLimit.Laws.{IsBounded}
use gsactions_mcp.Schedule.Backoff.{retry_delay, retry_delay_exact}

retry_delay_exact_example :
    (retry_delay "linear" 5 ≡ some (pos 600000000000))
    × (retry_delay "exponential" 28 ≡ some (negsuc 2340616713709551615))
retry_delay_exact_example = retry_delay_exact "linear" 5 (omega arith)

abbrev half_full : Bucket
half_full = record { tokens = pos 5000; last_refill = pos 100 }

half_full-IsBounded : IsBounded half_full
half_full-IsBounded = ground arith

after_calls_allowed_example :
    (n : ℕ) × ((rate_limit_script
        (some (after_calls n (record { tokens = pos 0; last_refill = pos 100 }) (pos 140)))
        (pos 140)).1
      ≡ true)
after_calls_allowed_example = after_calls_allowed 1000 0 100 40 (omega arith) (omega arith)
