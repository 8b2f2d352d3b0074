-- ===== src/Sampling/Once.antt =====
-- An execution is sampled by one connection only.
use gsactions_mcp.Common.{◌≡◌, sym, subst, true, false, List, All, All-map}
use gsactions_mcp.Common.Int.{pos, ◌+ℤ◌, ltb_ℤ}
use gsactions_mcp.Sampling.{lock_key, prompt_traced, run_prompt}
use gsactions_mcp.Sampling.Kept.{locks-sample}
use gsactions_mcp.Sampling.Locks.{
  OnlyTraces, locks-prompt_traced, Connection, run_again, run_again-OnlyTraces, set_nx_lock_free,
  is_held_new,
}
use gsactions_mcp.Sampling.Writes.{is_held}
use gsactions_mcp.Store.{Time, TriggerMessage, World, set_nx}

module _ (c : Connection) (msg : TriggerMessage) (w : World) where
  -- The connection takes the lock, and has it until five minutes later.
  run_prompt-is_held :
      c.env.fails set_nx ≡ false
      → is_held (lock_key msg.execution_id) c.env.now w.locks ≡ false
      → (now : Time) → ltb_ℤ now (c.env.now +ℤ pos 300000000000) ≡ true
      → is_held
          (lock_key msg.execution_id)
          now
          (run_prompt c.env c.client c.vault c.task msg w).locks
        ≡ true
  unfolding run_prompt
  run_prompt-is_held reached free now soon =
      let ready = prompt_traced c.env c.vault c.task msg w in
      let key = lock_key msg.execution_id in
      let same : ready.locks ≡ w.locks = locks-prompt_traced c.env c.task c.vault msg w in
      let free' = subst (λ ls. is_held key c.env.now ls ≡ false) (sym same) free in
      let taken = set_nx_lock_free c.env key ready reached free' in
      rw (taken, run_prompt)
        (subst (λ ls. is_held key now ls ≡ true)
          (sym (locks-sample c.env c.client c.task msg _ _ _))
          (is_held_new key now _ ready.locks soon))

  -- Once a connection has taken the lock of an execution, the same message changes nothing but the
  -- traces in any number of other connections that get it, whatever they read from the table and
  -- whatever their language models would answer, if each of them reads its clock less than five
  -- minutes after the first one. This is for a task that is no router.
  pub run_again_once :
      (cs : List Connection)
      → c.env.fails set_nx ≡ false
      → is_held (lock_key msg.execution_id) c.env.now w.locks ≡ false
      → All (λ d. ltb_ℤ d.env.now (c.env.now +ℤ pos 300000000000) ≡ true) cs
      → OnlyTraces
          (run_prompt c.env c.client c.vault c.task msg w)
          (run_again msg cs (run_prompt c.env c.client c.vault c.task msg w))
  run_again_once cs reached free soon =
      run_again-OnlyTraces msg cs _
        (All-map (λ d. run_prompt-is_held reached free d.env.now) cs soon)
