-- ===== src/Claim/Exclusive.antt =====
-- What several workers do with one table (cmd/server/scheduler.go): no task is run by two of them.
use gsactions_mcp.Claim.{due_tasks, query_claim_due_tasks}
use gsactions_mcp.Claim.Finished.{apart_sym, next_run-Held, complete_task-Held}
use gsactions_mcp.Claim.Held.{Held, claim-Held, claimed-Held}
use gsactions_mcp.Claim.Workers.{
  Run, Fleet, without_run, WorkerStep, claims, completes, reschedules, ReachableFleet, start,
  next_step,
}
use gsactions_mcp.Common.{
  ℕ, zero, suc, String, ◌≡◌, refl, sym, subst, ◌∙◌, inl, inr, true, false, some, List, [], ◌∷◌,
  ◌++◌, map, arith, Bool-cases, some-inj, get_elem?, All, any, All-map,
}
use gsactions_mcp.Store.{Task, claim_due_tasks, Env, status_processing}
use gsactions_mcp.Store.Laws.{row, uuid_eq_refl}
use gsactions_mcp.Store.Queries.{has_id, find_where}
use gsactions_mcp.Uuid.{Uuid, uuid_eq}

abbrev IsHeld : Fleet → Type 0
IsHeld f = All (Held f.world.tasks) f.runs

without_run-All :
    (P : Run → Type 0) (id : Uuid) (rs : List Run)
    → All P rs
    → All (λ r. (uuid_eq id r.0 ≡ false) × P r) (without_run id rs)
unfolding without_run
without_run-All P id [] held = tt
without_run-All P id (r ∷ rs) (h, hs) = elim (Bool-cases (uuid_eq r.0 id)) [
  | inl ended ↦ rw ended (without_run-All P id rs hs)
  | inr other ↦ rw other ((apart_sym r.0 id other, h), without_run-All P id rs hs)
]

All-append : (P : Run → Type 0) (xs ys : List Run) → All P xs → All P ys → All P (xs ++ ys)
All-append P [] ys h k = k
All-append P (x ∷ xs) ys (h, hs) k = (h, All-append P xs ys hs k)

-- The runs that a claim begins.
new_runs :
    (worker : String) (ts ss : List Task)
    → ((id : Uuid) → any (λ s. uuid_eq s.id id) ss ≡ true → Held ts (id, worker))
    → All (Held ts) (map (λ s. (s.id, worker)) ss)
new_runs worker ts [] held = tt
new_runs worker ts (s ∷ ss) held = (
  held s.id (rw (uuid_eq_refl s.id) refl),
  new_runs worker ts ss (λ id mine. held id (ground (arith, mine))),
)

claims-IsHeld :
    (env : Env) (batch_size : ℕ) (worker : String) (f : Fleet)
    → env.fails claim_due_tasks ≡ false
    → IsHeld f
    → All
        (Held (query_claim_due_tasks env batch_size worker f.world).tasks)
        (map (λ s. (s.id, worker)) (due_tasks env batch_size f.world.tasks) ++ f.runs)
claims-IsHeld env batch_size worker f up held =
    let selected = due_tasks env batch_size f.world.tasks in
    All-append _ (map (λ s. (s.id, worker)) selected) f.runs
      (new_runs worker _ selected
        (λ id mine. claimed-Held env batch_size worker id f.world up mine))
      (All-map (λ r h. claim-Held env batch_size worker r f.world up h) f.runs held)

WorkerStep-IsHeld : {f g : Fleet} → WorkerStep f g → IsHeld f → IsHeld g
WorkerStep-IsHeld (claims env batch_size worker f up) held =
    claims-IsHeld env batch_size worker f up held
WorkerStep-IsHeld (completes env user text status next id f parsed) held =
    All-map (λ r h. complete_task-Held env user text status next id r f.world parsed h.0 h.1) _
      (without_run-All (Held f.world.tasks) id f.runs held)
WorkerStep-IsHeld (reschedules env status next id f) held =
    All-map (λ r h. next_run-Held env status next id r f.world h.0 h.1) _
      (without_run-All (Held f.world.tasks) id f.runs held)

ReachableFleet-IsHeld : {f : Fleet} → ReachableFleet f → IsHeld f
ReachableFleet-IsHeld (start w) = tt
ReachableFleet-IsHeld (next_step reached step) =
    WorkerStep-IsHeld step (ReachableFleet-IsHeld reached)

All-get_elem? :
    (P : Run → Type 0) (rs : List Run) (i : ℕ) {r : Run} → All P rs → get_elem? rs i ≡ some r → P r
All-get_elem? P [] i held found = cc
All-get_elem? P (x ∷ rs) zero (h, hs) found = subst P (some-inj found) h
All-get_elem? P (x ∷ rs) (suc i) (h, hs) found = All-get_elem? P rs i hs found

Held-row :
    (id : Uuid) (worker : String) (ts : List Task) {t : Task}
    → Held ts (id, worker)
    → find_where (has_id id) ts ≡ some t
    → (t.status ≡ status_processing) × (t.locked_by ≡ some worker)
unfolding find_where
Held-row id worker [] held found = cc
Held-row id worker (x ∷ ts) {t} (h, hs) found = elim (Bool-cases (uuid_eq x.id id)) [
  | inl same ↦
      subst (λ (y : Task). (y.status ≡ status_processing) × (y.locked_by ≡ some worker))
        (some-inj (rw same at found)) (h same)
  | inr other ↦ Held-row id worker ts {t = t} hs (rw other at found)
]

-- However workers claim tasks, complete them and set their next runs, in whatever order, a task that
-- is there is run by one worker at a time: two runs of it that have begun and not ended are the same
-- worker's, and its row is processing and locked by that worker. Each step is one operation as a
-- whole; the reaper, and users who change their tasks meanwhile, are not among the steps.
pub ReachableFleet-exclusive :
    (f : Fleet) (id : Uuid) (a b : String) (i j : ℕ) {t : Task}
    → ReachableFleet f
    → get_elem? f.runs i ≡ some (id, a)
    → get_elem? f.runs j ≡ some (id, b)
    → row id f.world ≡ some t
    → (a ≡ b) × (t.status ≡ status_processing) × (t.locked_by ≡ some a)
ReachableFleet-exclusive f id a b i j {t} reached first second here =
    let held = ReachableFleet-IsHeld reached in
    let mine =
      Held-row id a f.world.tasks {t = t} (All-get_elem? (Held f.world.tasks) f.runs i held first)
        here in
    let theirs =
      Held-row id b f.world.tasks {t = t} (All-get_elem? (Held f.world.tasks) f.runs j held second)
        here in
    (some-inj (sym mine.1 ∙ theirs.1), mine.0, mine.1)
