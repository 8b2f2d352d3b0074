-- ===== src/Quota/Laws.antt =====
-- What passing the quota check means.
use gsactions_mcp.Common.{◌<◌, String, ◌≡◌, ◌↔◌, false, none, arith}
use gsactions_mcp.Quota.{quota_limit, count_tasks, check_user_quota}
use gsactions_mcp.Store.{World, count_user_tasks, Env}

-- The check passes exactly when the count could be read and the user has fewer tasks than the tier
-- allows.
pub check_user_quota_iff :
    (env : Env) (user tier : String) (w : World)
    → (check_user_quota env user tier w ≡ none)
      ↔ ((env.fails count_user_tasks ≡ false) × (count_tasks user w.tasks < quota_limit tier))
unfolding check_user_quota
check_user_quota_iff env user tier w = (λ h. ground arith, λ h. ground arith)
