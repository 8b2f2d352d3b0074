-- ===== src/Sampling/Writes.antt =====
-- The statements and the call of Redis that only a sampled task uses.
use gsactions_mcp.Common.{
  ◌==◌, String, Bool, false, ◌&&◌, ◌||◌, Option, none, some, List, [], ◌∷◌, if◌then◌else◌,
}
use gsactions_mcp.Common.Int.{ℤ, pos, ◌+ℤ◌, ltb_ℤ}
use gsactions_mcp.Json.{Json}
use gsactions_mcp.Store.{
  Time, WorkflowState, World, upsert_workflow_state, increment_task_failure_count, set_nx, Env,
}
use gsactions_mcp.Store.Queries.{update_where, owned, find_where, exec}
use gsactions_mcp.Uuid.{Uuid, uuid_eq}

module _ (env : Env) where
  -- The count after the increment, and 0 where the call fails: a call that would pass the largest
  -- INT fails, too.
  unfoldable pub query_increment_task_failure_count : Uuid → String → World → World × ℤ
  query_increment_task_failure_count id user w = elim (find_where (owned id user) w.tasks) [
    | none ↦ (w, pos 0)
    | some t ↦
        let count = t.failure_count +ℤ pos 1 in
        if env.fails increment_task_failure_count || ltb_ℤ (pos 2147483647) count
        then (w, pos 0)
        else (
          record w {
            tasks =
                update_where (owned id user)
                  (λ s. record s { failure_count = s.failure_count +ℤ pos 1 }) w.tasks;
          },
          count,
        )
  ]

  -- INSERT ... ON CONFLICT (task_id, execution_id) DO UPDATE
  unfoldable pub put_state : Uuid → String → Json → List WorkflowState → List WorkflowState
  put_state id execution data_ [] =
      record { task_id = id; execution_id = execution; state_data = some data_ } ∷ []
  put_state id execution data_ (s ∷ ss) =
      if uuid_eq s.task_id id && s.execution_id == execution
      then record s { state_data = some data_ } ∷ ss
      else s ∷ put_state id execution data_ ss

  unfoldable pub query_upsert_workflow_state : Uuid → String → Json → World → World
  unfolding put_state
  query_upsert_workflow_state id execution data_ =
      exec env upsert_workflow_state
        λ w. record w { states = put_state id execution data_ w.states }

-- Whether a key of Redis is there at a time.
unfoldable pub is_held : String → Time → List (String × Time) → Bool
is_held key now [] = false
is_held key now ((k, until) ∷ locks) = (k == key && ltb_ℤ now until) || is_held key now locks

-- SetNX for five minutes: `none` where the key is there or the call fails.
unfoldable pub set_nx_lock : Env → String → World → Option World
set_nx_lock env key w =
    if env.fails set_nx || is_held key env.now w.locks
    then none
    else some (record w { locks = (key, env.now +ℤ pos 300000000000) ∷ w.locks })
