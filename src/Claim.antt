-- ===== src/Claim.antt =====
-- cmd/server/scheduler.go: how a worker comes by a task (runScheduler, handleTaskClaimNotification),
-- and how the reaper takes tasks back (runReaper). ClaimDueTasks calls fn_claim_due_tasks of
-- schema.sql in one transaction; rows that another transaction has locked are left out.
pub mod Laws
pub mod Taken
pub mod Due
pub mod Race
pub mod Workers
pub mod Held
pub mod Finished
pub mod Exclusive
use gsactions_mcp.Common.{
  ◌==◌, ℕ, String, Bool, true, false, ◌&&◌, ◌||◌, not, none, some, List, [], ◌∷◌, if◌then◌else◌,
  any, take,
}
use gsactions_mcp.Common.Int.{ℤ, ◌-ℤ◌, ltb_ℤ}
use gsactions_mcp.Dispatch.Branches.{handle_dispatch_task}
use gsactions_mcp.Store.{
  Task, World, claim_due_tasks, Env, status_active, status_processing, status_completed,
}
use gsactions_mcp.Store.Queries.{
  update_where, has_id, find_where, filter_where, query_get_dispatchable_task_by_id,
  query_reap_stuck_tasks,
}
use gsactions_mcp.Uuid.{uuid_eq, parse_uuid}

-- The join with the parent: none, or a parent of the same user that is completed or active.
unfoldable pub dependency_ready : List Task → Task → Bool
dependency_ready ts t = elim t.depends_on_task_id [
  | none ↦ true
  | some parent ↦ elim (find_where (has_id parent) ts) [
    | none ↦ false
    | some dep ↦
        dep.user_id == t.user_id && (dep.status == status_completed || dep.status == status_active)
  ]
]

unfoldable pub claimable : Env → List Task → Task → Bool
claimable env ts t =
    not (ltb_ℤ env.now t.next_run) && t.status == status_active && dependency_ready ts t

-- ORDER BY next_run ASC
unfoldable pub insert_by_next_run : Task → List Task → List Task
insert_by_next_run t [] = t ∷ []
insert_by_next_run t (s ∷ ss) =
    let rest = insert_by_next_run t ss in
    if ltb_ℤ s.next_run t.next_run then s ∷ rest else t ∷ s ∷ ss

unfoldable pub sort_by_next_run : List Task → List Task
sort_by_next_run [] = []
sort_by_next_run (t ∷ ts) = insert_by_next_run t (sort_by_next_run ts)

-- The rows that a claim takes.
unfoldable pub due_tasks : Env → ℕ → List Task → List Task
due_tasks env batch_size ts =
    take batch_size (sort_by_next_run (filter_where (claimable env ts) ts))

abbrev pub claimed_by : String → Task → Task
claimed_by worker t = record t { status = status_processing; locked_by = some worker }

-- UPDATE ... WHERE id IN (the rows selected)
unfoldable pub query_claim_due_tasks : Env → ℕ → String → World → World
query_claim_due_tasks env batch_size worker w =
    let selected = due_tasks env batch_size w.tasks in
    if env.fails claim_due_tasks then w else record w {
      tasks = update_where (λ t. any (λ s. uuid_eq s.id t.id) selected) (claimed_by worker) w.tasks;
    }

-- taskClaimNotification, decoded
pub record Notice : Type 0 where
  pub task_id : String
  pub user_id : String
  pub worker_id : String

-- handleTaskClaimNotification
unfoldable pub handle_task_claim_notification : Env → Notice → World → World
handle_task_claim_notification env notice w =
    if not (notice.worker_id == env.worker_id) then w else elim (parse_uuid notice.task_id) [
      | none ↦ w
      | some id ↦ elim (query_get_dispatchable_task_by_id env id notice.user_id env.worker_id w) [
        | none ↦ w
        | some t ↦ handle_dispatch_task env t none w
      ]
    ]

-- One tick of runReaper; the threshold of the settings is a duration.
unfoldable pub reap : Env → ℤ → World → World
reap env reaper_threshold w = query_reap_stuck_tasks env (env.now -ℤ reaper_threshold) w
