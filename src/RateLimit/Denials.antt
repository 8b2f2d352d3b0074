-- ===== src/RateLimit/Denials.antt =====
-- Calls at one instant: what a bucket gives, and what a denied call gives back.
use Prim.Native.Nat.{min}
use gsactions_mcp.Common.{
  ℕ, zero, suc, ◌+◌, ◌-◌, ◌*◌, ◌/◌, ◌≤◌, ◌<◌, ◌≡◌, inl, inr, true, false, some, arith, ltb,
  if◌then◌else◌, ltb→lt, Bool-cases,
}
use gsactions_mcp.Common.Int.{ℤ, pos}
use gsactions_mcp.RateLimit.{Bucket, rate_limit_script}

-- The number of calls, of n at the instant `now`, that are allowed.
unfoldable allowed_of : ℕ → Bucket → ℤ → ℕ
allowed_of zero b now = 0
allowed_of (suc n) b now =
    let (b', allowed) = rate_limit_script (some b) now in
    let rest = allowed_of n b' now in if allowed then suc rest else rest

allow_step :
    (m : ℕ) (now : ℤ)
    → 1000 ≤ m
    → m ≤ 10000
    → rate_limit_script (some (record { tokens = pos m; last_refill = now })) now
      ≡ (record { tokens = pos (m - 1000); last_refill = now }, true)
unfolding rate_limit_script
allow_step m now h cap = ground arith

deny_step :
    (m : ℕ) (now : ℤ)
    → m < 1000
    → rate_limit_script (some (record { tokens = pos m; last_refill = now })) now
      ≡ (record { tokens = pos m; last_refill = now }, false)
unfolding rate_limit_script
deny_step m now h = ground arith

-- At the instant of its last refill a bucket that holds at most its capacity allows one call for each
-- whole token, of n calls, and no more: a full one allows ten.
allowed_of_burst :
    (n m : ℕ) (now : ℤ)
    → m ≤ 10000
    → allowed_of n (record { tokens = pos m; last_refill = now }) now ≡ min n (m / 1000)
unfolding allowed_of
allowed_of_burst zero m now cap = omega arith
allowed_of_burst (suc n) m now cap = elim (Bool-cases (ltb m 1000)) [
  | inl poor ↦
      rw (deny_step m now (ltb→lt _ _ poor))
        (omega (arith, allowed_of_burst n m now cap, ltb→lt _ _ poor))
  | inr rich ↦
      rw (allow_step m now (ground arith) cap)
        (ground (arith, allowed_of_burst n (m - 1000) now (omega arith)))
]

-- A denied call stores the refill but not its time.
deny_credits :
    (t l d : ℕ)
    → t + 5 * d < 1000
    → rate_limit_script (some (record { tokens = pos t; last_refill = pos l })) (pos (l + d))
      ≡ (record { tokens = pos (t + 5 * d); last_refill = pos l }, false)
unfolding rate_limit_script
deny_credits t l d h = ground arith

late_allows :
    (t l d : ℕ)
    → 1000 ≤ t + 5 * d
    → (rate_limit_script (some (record { tokens = pos t; last_refill = pos l })) (pos (l + d))).1
      ≡ true
unfolding rate_limit_script
late_allows t l d h = ground arith

-- The bucket after n calls at the instant `now`.
unfoldable pub after_calls : ℕ → Bucket → ℤ → Bucket
after_calls zero b now = b
after_calls (suc n) b now = after_calls n (rate_limit_script (some b) now).0 now

-- From any bucket whose last refill lies back, calls that are denied are enough to be allowed: after
-- some number of calls at one and the same instant the next call at that instant is allowed.
pub after_calls_allowed :
    (fuel t l d : ℕ)
    → 1000 ≤ t + fuel
    → 0 < d
    → (n : ℕ) × ((rate_limit_script
          (some (after_calls n (record { tokens = pos t; last_refill = pos l }) (pos (l + d))))
          (pos (l + d))).1
        ≡ true)
after_calls_allowed zero t l d enough back =
    (0, unfold after_calls in late_allows t l d (omega arith))
after_calls_allowed (suc fuel) t l d enough back = elim (Bool-cases (ltb (t + 5 * d) 1000)) [
  | inl poor ↦
      one_more (after_calls_allowed fuel (t + 5 * d) l d (omega arith) back) (ltb→lt _ _ poor)
  | inr rich ↦ (0, unfold after_calls in late_allows t l d (ground arith))
]
  where
    one_more :
        (n : ℕ) × ((rate_limit_script
              (some (
                after_calls n
                  (record { tokens = pos (t + 5 * d); last_refill = pos l })
                  (pos (l + d))))
              (pos (l + d))).1
            ≡ true)
        → t + 5 * d < 1000
        → (n : ℕ) × ((rate_limit_script
              (some (after_calls n (record { tokens = pos t; last_refill = pos l }) (pos (l + d))))
              (pos (l + d))).1
            ≡ true)
    one_more (n, e) poor = (suc n, unfold after_calls in rw (deny_credits t l d poor) e)
