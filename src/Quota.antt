-- ===== src/Quota.antt =====
-- cmd/server/auth.go CheckUserQuota: how many tasks a user may have.
pub mod Laws
use gsactions_mcp.Common.{
  ◌==◌, ℕ, suc, String, Option, none, some, List, [], ◌∷◌, leb, if◌then◌else◌,
}
use gsactions_mcp.Store.{Task, World, count_user_tasks, Env}

-- QuotaFree, QuotaPlus and QuotaPro of cmd/server/constants.go, by the tier
unfoldable pub quota_limit : String → ℕ
quota_limit tier = if tier == "plus" then 10 else if tier == "pro" then 20 else 2

-- SELECT COUNT(*) FROM tasks WHERE user_id = $1
unfoldable pub count_tasks : String → List Task → ℕ
count_tasks user [] = 0
count_tasks user (t ∷ ts) =
    if t.user_id == user then suc (count_tasks user ts) else count_tasks user ts

unfoldable query_count_user_tasks : Env → String → World → Option ℕ
query_count_user_tasks env user w =
    if env.fails count_user_tasks then none else some (count_tasks user w.tasks)

pub data QuotaError : Type 0 where
  count_failed : QuotaError
  quota_exceeded : String → ℕ → QuotaError

quota_verdict : String → Option ℕ → Option QuotaError
quota_verdict tier none = some count_failed
quota_verdict tier (some n) =
    if leb (quota_limit tier) n then some (quota_exceeded tier (quota_limit tier)) else none

-- CheckUserQuota; `none` is success.
unfoldable pub check_user_quota : Env → String → String → World → Option QuotaError
unfolding query_count_user_tasks quota_verdict
check_user_quota env user tier w = quota_verdict tier (query_count_user_tasks env user w)
