-- ===== src/RateLimit.antt =====
-- cmd/server/ratelimit.go: the Lua script of the token bucket, and Allow around it.
-- Tokens are counted in thousandths: at 5 tokens a second a millisecond refills 5 of them, exactly.
-- The script's doubles hold such values to a rounding error, which is left out. Times are
-- milliseconds; a key that Redis has expired or never held is `none`.
pub mod Laws
pub mod Denials
use gsactions_mcp.Common.{Bool, true, false, Option, none, some, nat_eq, if◌then◌else◌}
use gsactions_mcp.Common.Int.{ℤ, pos, negsuc, ◌+ℤ◌, ◌-ℤ◌, ◌*ℤ◌, ltb_ℤ}

pub record Bucket : Type 0 where
  pub tokens : ℤ
  pub last_refill : ℤ

-- BurstCapacity, RateTokensPerSec and `requested`
abbrev pub capacity : ℤ
capacity = pos 10000

abbrev refill_per_ms : ℤ
refill_per_ms = pos 5

abbrev requested : ℤ
requested = pos 1000

unfoldable min_ℤ : ℤ → ℤ → ℤ
min_ℤ a b = if ltb_ℤ b a then b else a

-- HMGET, and the values for a missing key.
unfoldable pub stored : Option Bucket → ℤ → Bucket
stored none now = record { tokens = capacity; last_refill = now }
stored (some b) now = b

-- math.min(capacity, tokens + refill)
unfoldable refilled : Bucket → ℤ → ℤ
unfolding min_ℤ ◌-ℤ◌ ◌*ℤ◌ ◌+ℤ◌
refilled b now = min_ℤ capacity (b.tokens +ℤ (now -ℤ b.last_refill) *ℤ refill_per_ms)

-- The script: what it stores, and whether it returns 1.
unfoldable pub rate_limit_script : Option Bucket → ℤ → Bucket × Bool
unfolding stored refilled
rate_limit_script key now =
    let b = stored key now in
    let tokens = refilled b now in
    if ltb_ℤ tokens requested
    then (record { tokens = tokens; last_refill = b.last_refill }, false)
    else (record { tokens = tokens -ℤ requested; last_refill = now }, true)

-- The reply of the script's run: an error, an integer, or a value of another type.
pub data ScriptReply : Type 0 where
  failed : ScriptReply
  integer : ℤ → ScriptReply
  other_value : ScriptReply

is_one : ℤ → Bool
is_one (pos n) = nat_eq n 1
is_one (negsuc n) = false

-- Allow; with no client it denies.
unfoldable pub allow : Bool → ScriptReply → Bool
unfolding is_one
allow false reply = false
allow true (integer n) = is_one n
allow true _ = false
