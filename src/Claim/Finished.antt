-- ===== src/Claim/Finished.antt =====
-- Rows that a worker holds, under completeTask and UpdateTaskNextRun on other tasks.
use gsactions_mcp.Claim.Held.{HeldRow, Held, All-filter, active-ne-processing, rows-Held}
use gsactions_mcp.Claim.Workers.{Run}
use gsactions_mcp.Common.{
  eq_iff, String, ◌≡◌, refl, sym, ap, subst, ◌∙◌, inl, inr, true, false, ◌||◌, not, some, List, [],
  ◌∷◌, arith, Bool-cases, Option-cases, some-inj, none-ne-some, All, All-map,
}
use gsactions_mcp.Completion.{trigger_dependents, trigger_step, complete_task}
use gsactions_mcp.Conditions.{evaluate_branch_condition}
use gsactions_mcp.Store.{
  Time, Task, World, update_task_next_run, complete_task_query, get_dependent_tasks_to_trigger, Env,
  status_active,
}
use gsactions_mcp.Store.Laws.{uuid_eq_refl, uuid_eq→eq}
use gsactions_mcp.Store.Queries.{
  status_allowed, has_id, find_where, query_update_task_next_run, query_complete_task,
  query_get_dependent_tasks_to_trigger,
}
use gsactions_mcp.Uuid.{Uuid, uuid_eq, parse_uuid}

apart_ids : (a b c : Uuid) → uuid_eq a b ≡ false → uuid_eq c b ≡ true → uuid_eq c a ≡ false
apart_ids a b c apart same = elim (Bool-cases (uuid_eq c a)) [
  | inr other ↦ other
  | inl hit ↦
      let e : a ≡ b = sym (uuid_eq→eq c a hit) ∙ uuid_eq→eq c b same in
      let clash : uuid_eq a b ≡ true = ap (λ i. uuid_eq i b) e ∙ uuid_eq_refl b in absurd (cc)
]

pub apart_sym : (a b : Uuid) → uuid_eq a b ≡ false → uuid_eq b a ≡ false
apart_sym a b apart = apart_ids a b b apart (uuid_eq_refl b)

pub next_run-Held :
    (env : Env) (status : String) (next : Time) (id : Uuid) (r : Run) (w : World)
    → uuid_eq id r.0 ≡ false
    → Held w.tasks r
    → Held (query_update_task_next_run env status next id w).tasks r
unfolding query_update_task_next_run
next_run-Held env status next id r w apart held =
    rows-Held env update_task_next_run status (has_id id) _ r w (λ t. refl)
      (λ t same. apart_ids id r.0 t.id apart same) held

complete-Held :
    (env : Env) (id : Uuid) (next : Time) (status : String) (r : Run) (w : World)
    → uuid_eq id r.0 ≡ false
    → Held w.tasks r
    → Held (query_complete_task env id next status w).tasks r
unfolding query_complete_task
complete-Held env id next status r w apart held =
    rows-Held env complete_task_query status (has_id id) _ r w (λ t. refl)
      (λ t same. apart_ids id r.0 t.id apart same) held

trigger_dependents-Held :
    (env : Env) (output : String) (ds : List Task) (r : Run) (w : World)
    → All (λ d. uuid_eq d.id r.0 ≡ false) ds
    → Held w.tasks r
    → Held (trigger_dependents env output ds w).tasks r
unfolding trigger_dependents
trigger_dependents-Held env output [] r w apart held = held
trigger_dependents-Held env output (d ∷ ds) r w (here, there) held =
    trigger_dependents-Held env output ds r _ there
      (elim (Bool-cases (evaluate_branch_condition d.branch_condition output)) [
        | inl holds ↦ rw holds (next_run-Held env status_active env.now d.id r w here held)
        | inr fails ↦ rw fails held
      ])

-- An active row is not one that is held.
idle_apart :
    (r : Run) (t : Task) → t.status ≡ status_active → HeldRow r.0 r.1 t → uuid_eq t.id r.0 ≡ false
idle_apart r t active held = elim (Bool-cases (uuid_eq t.id r.0)) [
  | inr other ↦ other
  | inl same ↦ absurd (active-ne-processing t.status active (held same).0)
]

-- The dependents that are read are active, so none of them runs.
dependents_apart :
    (env : Env) (id : Uuid) (r : Run) (w : World) {ds : List Task}
    → Held w.tasks r
    → query_get_dependent_tasks_to_trigger env id w ≡ some ds
    → All (λ d. uuid_eq d.id r.0 ≡ false) ds
unfolding query_get_dependent_tasks_to_trigger
dependents_apart env id r w {ds} held read =
    elim (Bool-cases (env.fails get_dependent_tasks_to_trigger)) [
      | inl down ↦ absurd (none-ne-some (rw down at read))
      | inr up ↦ elim (Option-cases (find_where (has_id id) w.tasks)) [
        | inl gone ↦
            subst (λ xs. All (λ d. uuid_eq d.id r.0 ≡ false) xs) (some-inj (rw (up, gone) at read))
              tt
        | inr (parent, found) ↦
            subst (λ xs. All (λ d. uuid_eq d.id r.0 ≡ false) xs) (some-inj (rw (up, found) at read))
              (All-map
                (λ d h. idle_apart r d (ground (arith, h.0, eq_iff d.status status_active)) h.1) _
                (All-filter (HeldRow r.0 r.1) _ w.tasks held))
      ]
    ]

pub complete_task-Held :
    (env : Env) (user text status : String) (next : Time) (id : Uuid) (r : Run) (w : World)
    → parse_uuid text ≡ some id
    → uuid_eq id r.0 ≡ false
    → Held w.tasks r
    → Held (complete_task env user text next status w).tasks r
unfolding complete_task trigger_step
complete_task-Held env user text status next id r w parsed apart held =
    elim (Bool-cases (env.fails complete_task_query || not (status_allowed status))) [
      | inl failed_call ↦ rw (parsed, complete_task) (rw failed_call held)
      | inr made ↦
          let v = query_complete_task env id next status w in
          let kept = complete-Held env id next status r w apart held in
          elim (Option-cases (query_get_dependent_tasks_to_trigger env id v)) [
            | inl unread ↦ rw (parsed, complete_task) (rw (made, trigger_step, unread) kept)
            | inr (ds, read) ↦
                rw (parsed, complete_task)
                  (rw (made, trigger_step, read)
                    (trigger_dependents-Held env _ ds r v
                      (dependents_apart env id r v {ds = ds} kept read) kept))
          ]
    ]
