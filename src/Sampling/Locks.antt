-- ===== src/Sampling/Locks.antt =====
-- What the lock of an execution keeps out.
use gsactions_mcp.Answer.{Client}
use gsactions_mcp.Common.{
  eq_refl, String, ◌≡◌, refl, sym, ap, subst, ◌∙◌, true, false, none, some, List, [], ◌∷◌, arith,
  All,
}
use gsactions_mcp.Common.Int.{pos, ◌+ℤ◌, ltb_ℤ}
use gsactions_mcp.Prompt.{Vault}
use gsactions_mcp.Sampling.{lock_key, traced_input, traced_output, prompt_traced, run_prompt}
use gsactions_mcp.Sampling.Writes.{is_held, set_nx_lock}
use gsactions_mcp.Store.{Time, Task, TriggerMessage, World, set_nx, Env}
use gsactions_mcp.Store.Queries.{exec, query_create_execution_trace}

-- Nothing but traces is new.
abbrev pub OnlyTraces : World → World → Type 0
OnlyTraces w v = v ≡ record w { traces = v.traces }

module _ (env : Env) (t : Task) where
  traced_input-OnlyTraces :
      (execution step text : String) (w : World)
      → OnlyTraces w (traced_input env t execution step text w)
  unfolding traced_input query_create_execution_trace exec
  traced_input-OnlyTraces execution step text w = ground arith

  traced_output-OnlyTraces :
      (execution step text : String) (w : World)
      → OnlyTraces w (traced_output env t execution step text w)
  unfolding traced_output query_create_execution_trace exec
  traced_output-OnlyTraces execution step text w = ground arith

  prompt_traced-OnlyTraces :
      (vault : Vault) (msg : TriggerMessage) (w : World)
      → OnlyTraces w (prompt_traced env vault t msg w)
  unfolding prompt_traced
  prompt_traced-OnlyTraces vault msg w =
      let retraced : World → World =
        λ v. record v { traces = (prompt_traced env vault t msg w).traces } in
      traced_output-OnlyTraces msg.execution_id "Prompt Resolution Success" _ _
      ∙ ap retraced (traced_input-OnlyTraces msg.execution_id "Prompt Resolution" msg.prompt w)

  pub locks-prompt_traced :
      (vault : Vault) (msg : TriggerMessage) (w : World)
      → (prompt_traced env vault t msg w).locks ≡ w.locks
  locks-prompt_traced vault msg w = ap (λ v. v.locks) (prompt_traced-OnlyTraces vault msg w)

  set_nx_lock_held :
      (key : String) (w : World) → is_held key env.now w.locks ≡ true → set_nx_lock env key w ≡ none
  unfolding set_nx_lock
  set_nx_lock_held key w held = ground arith

  run_prompt-OnlyTraces :
      (client : Client) (vault : Vault) (msg : TriggerMessage) (w : World)
      → is_held (lock_key msg.execution_id) env.now w.locks ≡ true
      → OnlyTraces w (run_prompt env client vault t msg w)
  unfolding run_prompt
  run_prompt-OnlyTraces client vault msg w held =
      let refused = set_nx_lock_held (lock_key msg.execution_id) (prompt_traced env vault t msg w) (
        subst (λ ls. is_held (lock_key msg.execution_id) env.now ls ≡ true)
          (sym (locks-prompt_traced vault msg w)) held) in
      rw (refused, run_prompt) (prompt_traced-OnlyTraces vault msg w)

-- The connections of the user, each with its surroundings, client, vault and reading of the row.
pub record Connection : Type 0 where
  pub env : Env
  pub client : Client
  pub vault : Vault
  pub task : Task

-- The same message, taken by further connections one after the other.
unfoldable pub run_again : TriggerMessage → List Connection → World → World
run_again msg [] w = w
run_again msg (c ∷ cs) w = run_again msg cs (run_prompt c.env c.client c.vault c.task msg w)

pub run_again-OnlyTraces :
    (msg : TriggerMessage) (cs : List Connection) (w : World)
    → All (λ c. is_held (lock_key msg.execution_id) c.env.now w.locks ≡ true) cs
    → OnlyTraces w (run_again msg cs w)
unfolding run_again
run_again-OnlyTraces msg [] w held = refl
run_again-OnlyTraces msg (c ∷ cs) w (held, more) =
    let retraced : World → World = λ v. record v { traces = (run_again msg (c ∷ cs) w).traces } in
    let quiet = run_prompt-OnlyTraces c.env c.task c.client c.vault msg w held in
    let next = run_prompt c.env c.client c.vault c.task msg w in
    run_again-OnlyTraces msg cs next (
      subst (λ ls. All (λ d. is_held (lock_key msg.execution_id) d.env.now ls ≡ true) cs)
        (sym (ap (λ v. v.locks) quiet)) more)
    ∙ ap retraced quiet

pub set_nx_lock_free :
    (env : Env) (key : String) (w : World)
    → env.fails set_nx ≡ false
    → is_held key env.now w.locks ≡ false
    → set_nx_lock env key w
      ≡ some (record w { locks = (key, env.now +ℤ pos 300000000000) ∷ w.locks })
unfolding set_nx_lock
set_nx_lock_free env key w reached free = rw (reached, free) refl

pub is_held_new :
    (key : String) (now until : Time) (locks : List (String × Time))
    → ltb_ℤ now until ≡ true
    → is_held key now ((key, until) ∷ locks) ≡ true
unfolding is_held
is_held_new key now until locks soon = rw (eq_refl key, soon) refl
