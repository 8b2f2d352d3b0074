-- ===== src/Schedule/Backoff.antt =====
-- The delays before the retries of a failed task.
use mathlib.Core.Option
use native.Mathlib.Nat.{pow-le-pow_right}
use gsactions_mcp.Common.{
  ◌==◌, ℕ, ◌*◌, ◌^◌, ◌≤◌, ◌<◌, String, ◌≡◌, refl, ap, ◌≢◌, Option, some, arith, if◌then◌else◌,
  some-inj,
}
use gsactions_mcp.Common.Int.{ℤ, pos, negsuc, pos_part, ◌*ℤ◌, wrap64}
use gsactions_mcp.Schedule.{minute, minutes_duration, shift_one, backoff_minutes}

-- The duration that a failed run adds to the clock before retry number `n`.
unfoldable pub retry_delay : String → ℕ → Option ℤ
retry_delay strategy n = Option.map minutes_duration (backoff_minutes strategy (pos n))

-- The source's choice of strategies: a text other than "exponential" is linear.
abbrev pub intended_minutes : String → ℕ → ℕ
intended_minutes strategy n = if strategy == "exponential" then 2 ^ n else n * 2

minutes_duration_small : (m : ℕ) → m ≤ 134217728 → minutes_duration (pos m) ≡ pos (m * 60000000000)
unfolding minutes_duration ◌*ℤ◌ wrap64
minutes_duration_small m h = ground arith

two_pow_le : (n : ℕ) → n ≤ 27 → 2 ^ n ≤ 134217728
two_pow_le n h = pow-le-pow_right (omega arith) h

intended_minutes_le : (strategy : String) (n : ℕ) → n ≤ 27 → intended_minutes strategy n ≤ 134217728
intended_minutes_le strategy n h = ground (arith, two_pow_le n h)

backoff_small :
    (strategy : String) (n : ℕ)
    → n ≤ 27
    → backoff_minutes strategy (pos n) ≡ some (pos (intended_minutes strategy n))
unfolding backoff_minutes shift_one wrap64 ◌*ℤ◌
backoff_small strategy n h = ground (arith, two_pow_le n h)

exact_delay :
    (strategy : String) (n : ℕ)
    → n ≤ 27
    → retry_delay strategy n ≡ some (pos (intended_minutes strategy n * 60000000000))
unfolding retry_delay
exact_delay strategy n h =
    rw (backoff_small strategy n h)
      (ap some (minutes_duration_small _ (intended_minutes_le strategy n h)))

-- The delay with its minutes.
pub backoff_exact :
    (strategy : String) (n : ℕ)
    → n ≤ 27
    → (m : ℤ) × (backoff_minutes strategy (pos n) ≡ some m)
      × (minutes_duration m ≡ pos (intended_minutes strategy n * 60000000000))
backoff_exact strategy n h = (
  pos (intended_minutes strategy n),
  backoff_small strategy n h,
  minutes_duration_small _ (intended_minutes_le strategy n h),
)

wrap64_lt : (a : ℤ) → pos_part (wrap64 a) < 2 ^ 63
unfolding wrap64
wrap64_lt a = ground arith

-- From retry 28 on the exponential delay is not 2^n minutes any more: the product leaves int64.
retry_delay_overflow :
    (n : ℕ) → 28 ≤ n → retry_delay "exponential" n ≢ some (pos (2 ^ n * 60000000000))
unfolding retry_delay backoff_minutes minutes_duration
retry_delay_overflow n h e =
    let large : 2 ^ 28 ≤ 2 ^ n = pow-le-pow_right (omega arith) h in
    let word : ℤ = shift_one n *ℤ minute in omega (arith, wrap64_lt word, ap pos_part (some-inj e))

negative_delay : retry_delay "exponential" 28 ≡ some (negsuc 2340616713709551615)
unfolding retry_delay backoff_minutes minutes_duration shift_one wrap64 ◌*ℤ◌
negative_delay = refl

-- Up to retry 27 the delay is exact for either strategy: 2^n minutes for the exponential one, 2n
-- minutes otherwise. At retry 28 the exponential delay is negative, so that the task is due at once.
pub retry_delay_exact :
    (strategy : String) (n : ℕ)
    → n ≤ 27
    → (retry_delay strategy n ≡ some (pos (intended_minutes strategy n * 60000000000)))
      × (retry_delay "exponential" 28 ≡ some (negsuc 2340616713709551615))
retry_delay_exact strategy n h = (exact_delay strategy n h, negative_delay)
