-- ===== src/Completion/Laws.antt =====
-- Which rows the completion of a task changes.
use mathlib.Core.Option
use gsactions_mcp.Common.{
  ◌==◌, String, ◌≡◌, refl, sym, ap, subst, ◌∙◌, ◌⊎◌, inl, inr, Bool, true, false, ◌&&◌, ◌||◌, not,
  Option, none, some, List, [], ◌∷◌, Memᴰ, arith, if◌then◌else◌, Bool-cases, Option-cases, All,
  All-map,
}
use gsactions_mcp.Completion.{trigger_dependents, trigger_step, complete_task}
use gsactions_mcp.Conditions.{evaluate_branch_condition}
use gsactions_mcp.Json.{text_or_empty}
use gsactions_mcp.Store.{
  Time, Task, World, update_task_next_run, complete_task_query, get_dependent_tasks_to_trigger, Env,
  status_active,
}
use gsactions_mcp.Store.Laws.{
  row, uuid_eq_refl, uuid_eq→eq, row-id, row-update_rows, row-update_rows_other, allowed_active,
}
use gsactions_mcp.Store.Queries.{
  status_allowed, has_id, filter_where, exec, update_rows, depends_on, query_get_task_output,
  query_update_task_next_run, query_complete_task, query_get_dependent_tasks_to_trigger,
}
use gsactions_mcp.Uuid.{Uuid, uuid_eq, parse_uuid}

-- The row of a dependent that was made due.
abbrev pub due : Env → Task → Task
due env t = record t { status = status_active; locked_by = none; next_run = env.now }

-- The row of `id` was made due, for a row of the table `ts` with this id that meets `p` and whose
-- branch condition holds of the output.
abbrev Woken : Env → String → List Task → (Task → Bool) → Uuid → World → World → Type 0
Woken env output ts p id w v =
    (d : Task) × Memᴰ d ts
    × (p d ≡ true)
    × (d.id ≡ id)
    × (evaluate_branch_condition d.branch_condition output ≡ true)
    × (row id v ≡ Option.map (due env) (row id w))

pub All-filter_where :
    (p : Task → Bool) (ts : List Task) → All (λ t. p t ≡ true) (filter_where p ts)
unfolding filter_where
All-filter_where p [] = tt
All-filter_where p (t ∷ ts) = ground (arith, All-filter_where p ts)

pub filter_where-Memᴰ :
    (p : Task → Bool) (ts : List Task) → All (λ t. Memᴰ t ts × (p t ≡ true)) (filter_where p ts)
unfolding filter_where
filter_where-Memᴰ p [] = tt
filter_where-Memᴰ p (t ∷ ts) =
    let rest = All-map (λ s h. (Memᴰ.tail h.0, h.1)) (filter_where p ts) (filter_where-Memᴰ p ts) in
    elim (Bool-cases (p t)) [
      | inl here ↦ rw here ((Memᴰ.head refl, here), rest)
      | inr other ↦ rw other rest
    ]

uuid_eq_comm : (u v : Uuid) → uuid_eq u v ≡ false → uuid_eq v u ≡ false
uuid_eq_comm u v h = ground (arith, uuid_eq→eq v u, uuid_eq_refl u)

-- A statement on the row of `id` reaches what is found under it.
map_found :
    (env : Env) (id : Uuid) (w : World)
    → Option.map (λ t. if has_id id t then due env t else t) (row id w)
      ≡ Option.map (due env) (row id w)
map_found env id w = go (row id w) (λ t. row-id id w {t = t})
  where
    go :
        (o : Option Task)
        → ((t : Task) → o ≡ some t → t.id ≡ id)
        → Option.map (λ t. if has_id id t then due env t else t) o ≡ Option.map (due env) o
    go none same = refl
    go (some t) same = rw (same t refl, uuid_eq_refl id) refl

module _ (env : Env) (output : String) (ts : List Task) (p : Task → Bool) (id : Uuid) where
  -- One turn of the loop.
  abbrev turn : Task → World → World
  turn d w =
      if evaluate_branch_condition d.branch_condition output
      then query_update_task_next_run env status_active env.now d.id w
      else w

  made_due :
      (d : Task) (w : World)
      → Memᴰ d ts
      → p d ≡ true
      → evaluate_branch_condition d.branch_condition output ≡ true
      → d.id ≡ id
      → (row id (query_update_task_next_run env status_active env.now d.id w) ≡ row id w)
        ⊎ Woken env output ts p id w (query_update_task_next_run env status_active env.now d.id w)
  unfolding query_update_task_next_run
  made_due d w there holds branch same = elim (Bool-cases (env.fails update_task_next_run)) [
    | inl down ↦ inl (unfold update_rows exec in rw down refl)
    | inr up ↦ inr (
      d,
      there,
      holds,
      same,
      branch,
      row-update_rows env _ _ _ _ id w (λ t. refl) up allowed_active
          ∙ ap (λ i. Option.map (λ t. if has_id i t then due env t else t) (row id w)) same
          ∙ map_found env id w,
    )
  ]

  row-turn :
      (d : Task) (w : World)
      → Memᴰ d ts
      → p d ≡ true
      → (row id (turn d w) ≡ row id w) ⊎ Woken env output ts p id w (turn d w)
  unfolding query_update_task_next_run
  row-turn d w there holds =
      elim (Bool-cases (evaluate_branch_condition d.branch_condition output)) [
        | inr unmet ↦ rw unmet (inl refl)
        | inl met ↦ rw met (elim (Bool-cases (uuid_eq d.id id)) [
          | inr other ↦ inl (
              row-update_rows_other env _ _ _ _ id w (λ t. refl)
                (λ t e. rw e (uuid_eq_comm d.id id other)))
          | inl same ↦ made_due d w there holds met (uuid_eq→eq d.id id same)
        ])
      ]

  Woken-step :
      (w v u : World)
      → (row id v ≡ row id w) ⊎ Woken env output ts p id w v
      → (row id u ≡ row id v) ⊎ Woken env output ts p id v u
      → (row id u ≡ row id w) ⊎ Woken env output ts p id w u
  Woken-step w v u (inl e) (inl e') = inl (e' ∙ e)
  Woken-step w v u (inl e) (inr (d, there, holds, same, branch, e')) =
      inr (d, there, holds, same, branch, e' ∙ ap (Option.map (due env)) e)
  Woken-step w v u (inr (d, there, holds, same, branch, e)) (inl e') =
      inr (d, there, holds, same, branch, e' ∙ e)
  Woken-step w v u (inr (d, there, holds, same, branch, e))
        (inr (d', there', holds', same', branch', e')) =
      inr (d', there', holds', same', branch', e' ∙ ap (Option.map (due env)) e ∙ twice (row id w))
    where
      twice :
          (o : Option Task) → Option.map (due env) (Option.map (due env) o) ≡ Option.map (due env) o
      twice none = refl
      twice (some t) = refl

  row-trigger_dependents :
      (ds : List Task) (w : World)
      → All (λ d. Memᴰ d ts × (p d ≡ true)) ds
      → (row id (trigger_dependents env output ds w) ≡ row id w)
        ⊎ Woken env output ts p id w (trigger_dependents env output ds w)
  unfolding trigger_dependents
  row-trigger_dependents [] w holds = inl refl
  row-trigger_dependents (d ∷ ds) w (here, rest) =
      Woken-step w (turn d w) (trigger_dependents env output ds (turn d w))
        (row-turn d w here.0 here.1) (row-trigger_dependents ds (turn d w) rest)

-- The tasks that wait for `tid`: they are active, follow it on completion, and are its user's.
abbrev awaits : Uuid → Task → Task → Bool
awaits tid parent t =
    depends_on tid t
    && t.trigger_on_completion
    && t.status == status_active
    && t.user_id == parent.user_id

module _ (env : Env) (user status : String) (tid id : Uuid) (next : Time) (w : World) where
  -- The state after the statement on the finished task, and the output that branches look at.
  abbrev pub completed : World
  completed = query_complete_task env tid next status w

  abbrev last_output : String
  last_output = text_or_empty (query_get_task_output env tid user completed)

  -- What the completion of `tid` may have done to the row of another task.
  abbrev pub Affected : World → Type 0
  Affected v =
      (row id v ≡ row id w)
      ⊎ ((parent : Task) × (row tid completed ≡ some parent)
          × Woken env last_output completed.tasks (awaits tid parent) id w v)

  module _ (other : uuid_eq tid id ≡ false) where
    row-completed : row id completed ≡ row id w
    unfolding query_complete_task
    row-completed =
        row-update_rows_other env _ _ _ _ id w (λ t. refl) (λ t e. rw e (uuid_eq_comm tid id other))

    Affected-widen :
        (parent : Task)
        → row tid completed ≡ some parent
        → (v : World)
        → (row id v ≡ row id completed)
          ⊎ Woken env last_output completed.tasks (awaits tid parent) id completed v
        → Affected v
    Affected-widen parent found v (inl e) = inl (e ∙ row-completed)
    Affected-widen parent found v (inr (d, there, holds, same, branch, e)) = inr (
      parent,
      found,
      (d, there, holds, same, branch, e ∙ ap (Option.map (due env)) row-completed),
    )

    abbrev woken_by : Task → World
    woken_by parent =
        trigger_dependents env last_output (filter_where (awaits tid parent) completed.tasks)
          completed

    trigger_step-found :
        (parent : Task)
        → env.fails get_dependent_tasks_to_trigger ≡ false
        → row tid completed ≡ some parent
        → trigger_step env user tid completed ≡ woken_by parent
    unfolding trigger_step query_get_dependent_tasks_to_trigger
    trigger_step-found parent up found = rw (up, found, trigger_step) refl

    trigger_step-idle :
        (env.fails get_dependent_tasks_to_trigger ≡ true) ⊎ (row tid completed ≡ none)
        → trigger_step env user tid completed ≡ completed
    unfolding trigger_step query_get_dependent_tasks_to_trigger trigger_dependents
    trigger_step-idle h = ground (arith, h)

    row-trigger_step : Affected (trigger_step env user tid completed)
    row-trigger_step = elim (Bool-cases (env.fails get_dependent_tasks_to_trigger)) [
      | inl down ↦ subst Affected (sym (trigger_step-idle (inl down))) (inl row-completed)
      | inr up ↦ elim (Option-cases (row tid completed)) [
        | inl missing ↦ subst Affected (sym (trigger_step-idle (inr missing))) (inl row-completed)
        | inr (parent, found) ↦ subst Affected (sym (trigger_step-found parent up found)) (
            Affected-widen parent found (woken_by parent) (
              row-trigger_dependents env last_output completed.tasks (awaits tid parent) id _
                completed (filter_where-Memᴰ (awaits tid parent) completed.tasks)))
      ]
    ]

    -- Completing a task leaves the row of every other task as it was, or makes it due now: active and
    -- without a lock. It is made due only if a row of the table with its id, as it is after the
    -- statement on the finished task, waits for the finished one, is active, follows it on
    -- completion, belongs to its user, and has a branch condition that holds of the finished task's
    -- last output. This is so whatever calls fail.
    pub complete_task_affects :
        (task_id : String)
        → parse_uuid task_id ≡ some tid
        → Affected (complete_task env user task_id next status w)
    unfolding complete_task
    complete_task_affects task_id parsed =
        rw (parsed, complete_task)
          (elim (Bool-cases (env.fails complete_task_query || not (status_allowed status))) [
            | inl failed_call ↦ rw failed_call (inl refl)
            | inr done ↦ rw done row-trigger_step
          ])
