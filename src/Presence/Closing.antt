-- ===== src/Presence/Closing.antt =====
-- What the end of one connection does to a user who has others.
use gsactions_mcp.Common.{◌<◌, ◌≡◌, refl, ap, ◌∙◌, true, false, Option, ◌∷◌, arith}
use gsactions_mcp.Common.Int.{◌+ℤ◌}
use gsactions_mcp.Dispatch.Branches.{needs_approval, miss_task, handle_dispatch_task}
use gsactions_mcp.Dispatch.Laws.{triggers-miss_task, outcomes-miss_task}
use gsactions_mcp.Json.{Fields}
use gsactions_mcp.Presence.{
  Presence, is_online, add_user, remove_user, count_down, tick, disconnect,
}
use gsactions_mcp.Presence.Limit.{later}
use gsactions_mcp.Store.{Task, World, Env}

module _ (env : Env) (t : Task) (payload : Option Fields) (w : World) where
  handle_dispatch_task-offline :
      needs_approval t ≡ false
      → env.is_online t.user_id ≡ false
      → handle_dispatch_task env t payload w ≡ miss_task env t w
  unfolding handle_dispatch_task
  handle_dispatch_task-offline free offline = rw (free, offline) refl

  offline_now : (p : Presence) → is_online (disconnect p) ≡ false
  unfolding disconnect remove_user count_down is_online
  offline_now p = refl

  -- When one of several connections of a user closes, the user counts as off line, although the others
  -- are still there: of a task that is dispatched then, and needs no approval, no message is sent, and
  -- it is counted as missed. The next tick of another connection ends this.
  pub handle_dispatch_task-disconnect :
      (p : Presence)
      → 1 < p.connected
      → env.is_online t.user_id ≡ is_online (disconnect p)
      → needs_approval t ≡ false
      → (0 < (disconnect p).connected)
        × ((handle_dispatch_task env t payload w).triggers ≡ w.triggers)
        × ((handle_dispatch_task env t payload w).outcomes ≡ "missed" ∷ w.outcomes)
        × (is_online (tick (disconnect p)) ≡ true)
  unfolding disconnect remove_user count_down is_online tick add_user ◌+ℤ◌
  handle_dispatch_task-disconnect p several seen free =
      let missed = handle_dispatch_task-offline free (seen ∙ offline_now p) in
      (
        omega arith,
        ap (λ v. v.triggers) missed ∙ triggers-miss_task env t w,
        ap (λ v. v.outcomes) missed ∙ outcomes-miss_task env t w,
        later p.now 29999999999,
      )
