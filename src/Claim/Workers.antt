-- ===== src/Claim/Workers.antt =====
-- Several workers on one table: their claims, and the ends of their runs, in any order. Each step is
-- one operation as a whole; Claim/Race has what happens between the statements of one.
use gsactions_mcp.Claim.{due_tasks, query_claim_due_tasks}
use gsactions_mcp.Common.{ℕ, String, ◌≡◌, false, some, List, [], ◌∷◌, ◌++◌, map, if◌then◌else◌}
use gsactions_mcp.Completion.{complete_task}
use gsactions_mcp.Store.{Time, World, claim_due_tasks, Env}
use gsactions_mcp.Store.Queries.{query_update_task_next_run}
use gsactions_mcp.Uuid.{Uuid, uuid_eq, parse_uuid}

-- A run that a worker has begun and not ended: the task's id and the worker.
abbrev pub Run : Type 0
Run = Uuid × String

pub record Fleet : Type 0 where
  pub world : World
  pub runs : List Run

unfoldable pub without_run : Uuid → List Run → List Run
without_run id [] = []
without_run id (r ∷ rs) = if uuid_eq r.0 id then without_run id rs else r ∷ without_run id rs

-- What the workers do: a claim, which begins a run of each task that it takes, and the two ways in
-- which a run ends, in completeTask or with a new time for the next one.
pub data WorkerStep : Fleet → Fleet → Type 0 where
  claims :
      (env : Env) (batch_size : ℕ) (worker : String) (f : Fleet)
      → env.fails claim_due_tasks ≡ false
      → WorkerStep f (record {
        world = query_claim_due_tasks env batch_size worker f.world;
        runs = map (λ s. (s.id, worker)) (due_tasks env batch_size f.world.tasks) ++ f.runs;
      })
  completes :
      (env : Env) (user text status : String) (next : Time) (id : Uuid) (f : Fleet)
      → parse_uuid text ≡ some id
      → WorkerStep f (record {
        world = complete_task env user text next status f.world;
        runs = without_run id f.runs;
      })
  reschedules :
      (env : Env) (status : String) (next : Time) (id : Uuid) (f : Fleet)
      → WorkerStep f (record {
        world = query_update_task_next_run env status next id f.world;
        runs = without_run id f.runs;
      })

-- From any table, with no run begun.
pub data ReachableFleet : Fleet → Type 0 where
  start : (w : World) → ReachableFleet (record { world = w; runs = [] })
  next_step : {f g : Fleet} → ReachableFleet f → WorkerStep f g → ReachableFleet g
