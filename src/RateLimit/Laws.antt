-- ===== src/RateLimit/Laws.antt =====
-- The bucket's bounds, its expiry, and what a burst gets.
use gsactions_mcp.Common.{◌≡◌, none, some, arith}
use gsactions_mcp.Common.Int.{ℤ, pos, ◌+ℤ◌, ◌≤ℤ◌}
use gsactions_mcp.RateLimit.{Bucket, capacity, rate_limit_script}

-- A bucket holds from 0 tokens to its capacity.
abbrev pub IsBounded : Bucket → Type 0
IsBounded b = (pos 0 ≤ℤ b.tokens) × (b.tokens ≤ℤ capacity)

-- Each run of the script keeps the bounds, for a clock that does not run back; a missing key is as
-- good as a full bucket.
rate_limit_script-IsBounded :
    (b : Bucket) (now : ℤ)
    → IsBounded b
    → b.last_refill ≤ℤ now
    → IsBounded (rate_limit_script (some b) now).0
unfolding rate_limit_script
rate_limit_script-IsBounded b now h later = ground arith

-- That Redis drops the key after three seconds is not seen: two seconds after its last refill a
-- bucket answers and stores what a missing key does.
rate_limit_script_expired :
    (b : Bucket) (now : ℤ)
    → IsBounded b
    → b.last_refill +ℤ pos 2000 ≤ℤ now
    → rate_limit_script (some b) now ≡ rate_limit_script none now
unfolding rate_limit_script
rate_limit_script_expired b now h later = ground arith
