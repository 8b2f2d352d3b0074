-- ===== src/Dispatch/Exhaustion.antt =====
-- A task that fails again and again: how long it is retried.
use gsactions_mcp.Common.{
  ℕ, zero, suc, ◌+◌, ◌*◌, ◌≤◌, ◌<◌, String, ◌≡◌, refl, sym, ap, subst, ◌∙◌, true, false, Option,
  none, some, List, [], ◌∷◌, arith,
}
use gsactions_mcp.Common.Int.{ℤ, pos, ltb_ℤ}
use gsactions_mcp.Dispatch.Retry.{retry_or_give_up}
use gsactions_mcp.Dispatch.RetryLaws.{
  retried, given_up, next_retry_pos, retry_or_give_up_again, retry_or_give_up_last,
}
use gsactions_mcp.Schedule.{next_retry, retry_limit}
use gsactions_mcp.Schedule.Backoff.{intended_minutes}
use gsactions_mcp.Store.{Task, World, Env, Up, status_error}
use gsactions_mcp.Store.Laws.{row}
use gsactions_mcp.Uuid.{Uuid}

-- `k` failed runs of the task with this id, one after the other.
unfoldable pub fail_times : Env → Uuid → String → ℕ → World → World
fail_times env id message zero w = w
fail_times env id message (suc k) w = elim (row id w) [
  | none ↦ w
  | some t ↦ fail_times env id message k (retry_or_give_up env t message w)
]

fail_times-suc :
    (env : Env) (t : Task) (message : String) (k : ℕ) (w : World)
    → row t.id w ≡ some t
    → fail_times env t.id message (suc k) w
      ≡ fail_times env t.id message k (retry_or_give_up env t message w)
unfolding fail_times
fail_times-suc env t message k w here = rw (here, fail_times)

abbrev top : List (Uuid × String) → Option (Uuid × String)
top [] = none
top (e ∷ es) = some e

limit_reached :
    (m count : ℤ) (n : ℕ)
    → n ≤ 27
    → count ≡ pos n
    → retry_limit m ≡ pos n
    → ltb_ℤ (retry_limit m) (next_retry count) ≡ true
limit_reached m count n small c e = rw (c, e, next_retry_pos n (omega arith)) (ground arith)

limit_left :
    (m : ℤ) (n l : ℕ) → n < l → retry_limit m ≡ pos l → ltb_ℤ (retry_limit m) (pos (n + 1)) ≡ false
limit_left m n l h e = rw e (ground arith)

-- The task is parked: its row says error, has no lock and counts one retry more than the limit, and
-- it is the latest dead letter.
abbrev pub Parked : Uuid → String → ℕ → World → Type 0
Parked id message limit w =
    (s : Task) × (row id w ≡ some s)
    × (s.status ≡ status_error)
    × (s.locked_by ≡ none)
    × (s.retry_count ≡ pos (limit + 1))
    × (top w.dlq ≡ some (id, message))

Parked-now :
    (env : Env) (message : String) (limit : ℕ) (t : Task) (w : World)
    → Up env
    → row t.id w ≡ some t
    → t.retry_count ≡ pos limit
    → retry_limit t.max_retries ≡ pos limit
    → limit ≤ 27
    → Parked t.id message limit (retry_or_give_up env t message w)
Parked-now env message limit t w up here count top_limit small =
    let spent = limit_reached t.max_retries t.retry_count limit small count top_limit in
    let done = retry_or_give_up_last env up t message w here spent in
    (
      given_up t (next_retry t.retry_count),
      done.0,
      refl,
      refl,
      ap next_retry count ∙ next_retry_pos limit (omega arith),
      ap top done.1,
    )

-- A task whose row counts n retries, of at most n + k, is parked by the k + 1 th failed run from now:
-- its status is error, its lock is gone, and it is the latest dead letter. This is for limits up to
-- 27 and calls that succeed.
pub fail_times_exhausts :
    (env : Env) (message : String) (limit k n : ℕ) (t : Task) (w : World)
    → Up env
    → row t.id w ≡ some t
    → t.retry_count ≡ pos n
    → retry_limit t.max_retries ≡ pos limit
    → n + k ≡ limit
    → limit ≤ 27
    → Parked t.id message limit (fail_times env t.id message (suc k) w)
fail_times_exhausts env message limit zero n t w up here count top_limit sum small =
    subst (Parked t.id message limit) (sym (fail_times-suc env t message zero w here)) (
      unfold fail_times in
      Parked-now env message limit t w up here (count ∙ ap pos (omega arith)) top_limit small)
fail_times_exhausts env message limit (suc k) n t w up here count top_limit sum small =
    let again =
      retry_or_give_up_again env up t message w n here count (omega arith)
        (limit_left t.max_retries n limit (omega arith) top_limit) in
    subst (Parked t.id message limit) (sym (fail_times-suc env t message (suc k) w here)) (
      fail_times_exhausts env message limit k (n + 1)
        (retried env t (pos (n + 1))
          (pos (intended_minutes t.backoff_strategy (n + 1) * 60000000000)))
        (retry_or_give_up env t message w) up again refl top_limit (omega arith) small)
