-- ===== src/Sampling/Merging.antt =====
-- What an answer's state update leaves in the table of workflow states.
use mathlib.Core.Option
use gsactions_mcp.Common.{
  ◌==◌, eq_iff, eq_refl, String, ◌≡◌, refl, ap, subst, ◌∙◌, ◌↔◌, true, false, ◌&&◌, Option, some,
  List, [], ◌∷◌, arith, if◌then◌else◌, some-inj,
}
use gsactions_mcp.Dispatch.Branches.{execution_state}
use gsactions_mcp.Json.{Json, object, Fields, end, field, get_field, set_field, unmarshal_map}
use gsactions_mcp.Prompt.{find_state, query_get_workflow_state}
use gsactions_mcp.RateLimit.{stored}
use gsactions_mcp.Sampling.{current_state, merge_fields, store_update}
use gsactions_mcp.Sampling.Writes.{put_state, query_upsert_workflow_state}
use gsactions_mcp.Store.{WorkflowState, World, get_workflow_state, upsert_workflow_state, Env, Up}
use gsactions_mcp.Store.Laws.{uuid_eq_refl, uuid_eq→eq}
use gsactions_mcp.Store.Queries.{exec}
use gsactions_mcp.Uuid.{Uuid, uuid_eq}

-- The value that an update gives to a key: the last one where it names the key, and otherwise the one
-- from before.
abbrev latest_field : String → Fields → Option Json → Option Json
latest_field k end before = before
latest_field k (field j v fs) before = latest_field k fs (if j == k then some v else before)

get_field-set_field :
    (k j : String) (v : Json) (fs : Fields)
    → get_field k (set_field j v fs) ≡ (if j == k then some v else get_field k fs)
unfolding get_field set_field
get_field-set_field k j v end = refl
get_field-set_field k j v (field i u fs) =
    ground (arith, eq_iff i j, eq_iff i k, eq_iff j k, get_field-set_field k j v fs)

get_field-merge_fields :
    (k : String) (update into : Fields)
    → get_field k (merge_fields update into) ≡ latest_field k update (get_field k into)
unfolding merge_fields
get_field-merge_fields k end into = refl
get_field-merge_fields k (field j v fs) into =
    get_field-merge_fields k fs (set_field j v into)
    ∙ ap (latest_field k fs) (get_field-set_field k j v into)

uuid_eq_iff : (u v : Uuid) → (uuid_eq u v ≡ true) ↔ (u ≡ v)
uuid_eq_iff u v =
    (uuid_eq→eq u v, λ (e : u ≡ v). subst (λ x. uuid_eq u x ≡ true) e (uuid_eq_refl u))

module _ (env : Env) (up : Up env) where
  find_state-put_state :
      (id id' : Uuid) (execution execution' : String) (j : Json) (ss : List WorkflowState)
      → Option.map (λ s. s.state_data) (find_state id' execution' (put_state env id execution j ss))
        ≡ (if uuid_eq id id' && execution == execution'
            then some (some j)
            else Option.map (λ s. s.state_data) (find_state id' execution' ss))
  unfolding find_state put_state
  find_state-put_state id id' execution execution' j [] = ground arith
  find_state-put_state id id' execution execution' j (s ∷ ss) = ground (
    arith,
    uuid_eq_iff s.task_id id,
    uuid_eq_iff s.task_id id',
    uuid_eq_iff id id',
    eq_iff s.execution_id execution,
    eq_iff s.execution_id execution',
    eq_iff execution execution',
    find_state-put_state id id' execution execution' j ss,
  )

  get-upsert :
      (id id' : Uuid) (execution execution' : String) (j : Json) (w : World)
      → query_get_workflow_state env id' execution'
          (query_upsert_workflow_state env id execution j w)
        ≡ (if uuid_eq id id' && execution == execution'
            then some (some j)
            else query_get_workflow_state env id' execution' w)
  unfolding query_get_workflow_state query_upsert_workflow_state exec
  get-upsert id id' execution execution' j w =
      rw (up upsert_workflow_state, up get_workflow_state)
        (find_state-put_state id id' execution execution' j w.states)

  execution_state-upsert :
      (id : Uuid) (execution : String) (fs : Fields) (w : World)
      → execution_state env id execution
          (query_upsert_workflow_state env id execution (object fs) w)
        ≡ some fs
  unfolding execution_state unmarshal_map
  execution_state-upsert id execution fs w =
      let read : query_get_workflow_state env id execution
            (query_upsert_workflow_state env id execution (object fs) w)
          ≡ some (some (object fs)) =
        get-upsert id id execution execution (object fs) w
        ∙ rw (uuid_eq_refl id, eq_refl execution) refl in
      rw (read, execution_state) refl

  -- After the state update of an answer, a key of the execution's state has the value that the update
  -- gives it, the last one where the update names the key twice, and otherwise the value that it had
  -- before; the states of other tasks and executions are unchanged. This is for calls that succeed and
  -- an update that is stored, over a state that is no stored null.
  store_update-get_field :
      (id : Uuid) (execution : String) (update state : Fields) (w v : World)
      → current_state env id execution w ≡ some state
      → store_update env id execution update w ≡ some v
      → ((k : String)
          → Option.map (get_field k) (execution_state env id execution v)
            ≡ some (latest_field k update (get_field k state)))
        × ((id' : Uuid) (execution' : String)
            → (uuid_eq id id' && execution == execution') ≡ false
            → query_get_workflow_state env id' execution' v
              ≡ query_get_workflow_state env id' execution' w)
  unfolding store_update
  store_update-get_field id execution update state w v before stored =
      let merged = merge_fields update state in
      let same : query_upsert_workflow_state env id execution (object merged) w ≡ v =
        some-inj (rw (before, store_update) at stored) in
      (
        λ (k : String).
            subst
              (λ u.
                Option.map (get_field k) (execution_state env id execution u)
                ≡ some (latest_field k update (get_field k state)))
              same
              (rw
                (
                  execution_state-upsert id execution merged w,
                  get_field-merge_fields k update state,
                )
                refl),
        λ (id' : Uuid) (execution' : String)
              (elsewhere : (uuid_eq id id' && execution == execution') ≡ false).
            subst
              (λ u.
                query_get_workflow_state env id' execution' u
                ≡ query_get_workflow_state env id' execution' w)
              same (rw (get-upsert id id' execution execution' (object merged) w, elsewhere) refl),
      )
