-- ===== src/Claim/Race.antt =====
-- Two workers and a task that waits for another one: completeTask reads the dependents and updates them
-- in separate statements, between which another worker can claim one.
use gsactions_mcp.Claim.{dependency_ready, claimable, claimed_by, query_claim_due_tasks}
use gsactions_mcp.Claim.Due.{row-query_claim_due_tasks}
use gsactions_mcp.Common.{
  ◌==◌, eq_refl, ℕ, ◌≤◌, String, ◌≡◌, refl, subst, ◌∙◌, inl, inr, true, false, ◌&&◌, none, some, [],
  ◌∷◌, arith, Bool-cases, Option-cases, some-inj, none-ne-some, length, All,
}
use gsactions_mcp.Common.Int.{ltb_ℤ}
use gsactions_mcp.Completion.{trigger_dependents}
use gsactions_mcp.Completion.Laws.{due, All-filter_where}
use gsactions_mcp.Conditions.{evaluate_branch_condition}
use gsactions_mcp.Store.{
  Task, World, update_task_next_run, get_dependent_tasks_to_trigger, claim_due_tasks, Env,
  status_active,
}
use gsactions_mcp.Store.Laws.{row, uuid_eq_refl, row-id, row-update_rows, allowed_active}
use gsactions_mcp.Store.Queries.{
  has_id, find_where, depends_on, query_update_task_next_run, query_get_dependent_tasks_to_trigger,
}
use gsactions_mcp.Uuid.{Uuid}

released :
    (env : Env) (id : Uuid) (w : World) {t : Task}
    → env.fails update_task_next_run ≡ false
    → row id w ≡ some t
    → row id (query_update_task_next_run env status_active env.now id w)
      ≡ some (record t { status = status_active; locked_by = none; next_run = env.now })
unfolding query_update_task_next_run
released env id w {t} up here =
    row-update_rows env update_task_next_run status_active (has_id id) _ id w (λ s. refl) up
      allowed_active
    ∙ rw here (rw (row-id id w here, uuid_eq_refl id) refl)

abbrev due_row : Env → Task → Task
due_row env t = record t { status = status_active; locked_by = none; next_run = env.now }

-- The loop over one dependent.
released_by :
    (env : Env) (output : String) (d : Task) (w : World) {t : Task}
    → env.fails update_task_next_run ≡ false
    → evaluate_branch_condition d.branch_condition output ≡ true
    → row d.id w ≡ some t
    → row d.id (trigger_dependents env output (d ∷ []) w) ≡ some (due_row env t)
unfolding trigger_dependents
released_by env output d w {t} up holds here = rw holds (released env d.id w {t = t} up here)

-- A dependent that is read is active.
read-active :
    (env : Env) (parent : Uuid) (w : World) {d : Task}
    → query_get_dependent_tasks_to_trigger env parent w ≡ some (d ∷ [])
    → (d.status == status_active) ≡ true
unfolding query_get_dependent_tasks_to_trigger
read-active env parent w {d} read = elim (Bool-cases (env.fails get_dependent_tasks_to_trigger)) [
  | inl down ↦ absurd (none-ne-some (rw down at read))
  | inr up ↦ elim (Option-cases (find_where (has_id parent) w.tasks)) [
    | inl gone ↦ absurd (cc (some-inj (rw (up, gone) at read)))
    | inr (p, found) ↦
        let wanted = λ (t : Task).
          depends_on parent t
          && t.trigger_on_completion
          && t.status == status_active
          && t.user_id == p.user_id in
        let holds =
          subst (All (λ t. wanted t ≡ true)) (some-inj (rw (up, found) at read))
            (All-filter_where wanted w.tasks) in
        ground (arith, holds.0)
  ]
]

-- A worker that completes a task has read its one dependent, a row that is due and whose branch
-- condition holds; before it updates that, another worker claims it. Then the next claim takes the
-- dependent a second time, with no end of its run in between. Both claims have room in their batches
-- and come when the dependent is due and its parent is ready, and the claims and the update succeed.
pub trigger_dependents-query_claim_due_tasks :
    (env first second : Env) (parent : Uuid) (output a b : String) (n m : ℕ) (d : Task) (w : World)
    → env.fails update_task_next_run ≡ false
    → first.fails claim_due_tasks ≡ false
    → second.fails claim_due_tasks ≡ false
    → query_get_dependent_tasks_to_trigger env parent w ≡ some (d ∷ [])
    → evaluate_branch_condition d.branch_condition output ≡ true
    → row d.id w ≡ some d
    → length w.tasks ≤ n
    → ltb_ℤ first.now d.next_run ≡ false
    → dependency_ready w.tasks d ≡ true
    → length (trigger_dependents env output (d ∷ []) (query_claim_due_tasks first n a w)).tasks ≤ m
    → ltb_ℤ second.now env.now ≡ false
    → dependency_ready
        (trigger_dependents env output (d ∷ []) (query_claim_due_tasks first n a w)).tasks
        d
      ≡ true
    → (row d.id (query_claim_due_tasks first n a w) ≡ some (claimed_by a d))
      × (row d.id (
            query_claim_due_tasks second m b
              (trigger_dependents env output (d ∷ []) (query_claim_due_tasks first n a w)))
          ≡ some (claimed_by b (record d { next_run = env.now })))
unfolding claimable dependency_ready
trigger_dependents-query_claim_due_tasks env first second parent output a b n m d w up up_first
      up_second read holds here room due ready more_room due_again still_ready =
    let claimed = query_claim_due_tasks first n a w in
    let active = read-active env parent w {d = d} read in
    let taken =
      row-query_claim_due_tasks first n a w d.id {t = d} up_first room here
        (ground (arith, due, active, ready)) in
    let freed = released_by env output d claimed {t = claimed_by a d} up holds taken in
    (
      taken,
      row-query_claim_due_tasks second m b (trigger_dependents env output (d ∷ []) claimed) d.id
          {t = due_row env (claimed_by a d)} up_second more_room freed
          (rw (due_again, eq_refl status_active) still_ready),
    )
