-- ===== src/Transfer/Laws.antt =====
-- What an import does to the tasks of its user and of the others.
use gsactions_mcp.Common.{
  eq_refl, ℕ, ◌+◌, ◌≤◌, String, ◌≡◌, refl, ◌∙◌, ◌⊎◌, inl, inr, Bool, ◌||◌, not, Option, none, some,
  List, [], ◌∷◌, arith, Bool-cases, length,
}
use gsactions_mcp.Quota.{count_tasks}
use gsactions_mcp.Store.{Task, World, create_task_query, Env}
use gsactions_mcp.Store.Queries.{update_where, filter_where}
use gsactions_mcp.Tools.Create.{CreateTaskParams, new_row, row_allowed, query_create_task}
use gsactions_mcp.Tools.Isolation.{others, others-update_where}
use gsactions_mcp.Transfer.{
  TransferTask, ImportError, Created, import_params, noted, create_checked, create_one, create_all,
  query_link_task_dependency, link_one, link_all, import_user_tasks,
}
use gsactions_mcp.Uuid.{Uuid}

count_tasks-update_where :
    (user : String) (p : Task → Bool) (f : Task → Task) (ts : List Task)
    → ((t : Task) → (f t).user_id ≡ t.user_id)
    → count_tasks user (update_where p f ts) ≡ count_tasks user ts
unfolding count_tasks update_where
count_tasks-update_where user p f [] keeps = refl
count_tasks-update_where user p f (t ∷ ts) keeps =
    ground (arith, keeps t, count_tasks-update_where user p f ts keeps)

-- The number of tasks that a loop has added, at most one for each task of the bundle, and exactly
-- that many if it went through.
abbrev Added : String → World → List TransferTask → World × (ImportError ⊎ Created) → Type 0
Added user w ts (v, inl e) =
    (count_tasks user w.tasks ≤ count_tasks user v.tasks)
    × (count_tasks user v.tasks ≤ count_tasks user w.tasks + length ts)
Added user w ts (v, inr created) = count_tasks user v.tasks ≡ count_tasks user w.tasks + length ts

module _ (env : Env) (user : String) where
  import_params-user :
      (idx : ℕ) (t : TransferTask) {p : CreateTaskParams}
      → import_params env user idx t ≡ inr p
      → p.user_id ≡ user
  unfolding import_params
  import_params-user idx t h = ground arith

  -- A loop leaves the tasks of other users alone, and has added so many of the user's.
  abbrev Kept : World → List TransferTask → World × (ImportError ⊎ Created) → Type 0
  Kept w ts r = (others user r.0.tasks ≡ others user w.tasks) × Added user w ts r

  noted-Kept :
      (idx : ℕ) (t : TransferTask) (created : Created) (p : CreateTaskParams) (w : World)
      → p.user_id ≡ user
      → Kept w (t ∷ []) (noted idx t created (query_create_task env p w))
  unfolding noted query_create_task count_tasks new_row filter_where
  noted-Kept idx t created p w here =
      elim (Bool-cases (env.fails create_task_query || not (row_allowed p))) [
        | inl e ↦ rw e (refl, (omega arith, omega arith))
        | inr e ↦ rw e (ground (arith, here, eq_refl user), ground (arith, here, eq_refl user))
      ]

  create_checked-Kept :
      (idx : ℕ) (t : TransferTask) (created : Created) (w : World)
      (r : ImportError ⊎ CreateTaskParams)
      → import_params env user idx t ≡ r
      → Kept w (t ∷ []) (create_checked env idx t created w r)
  unfolding create_checked
  create_checked-Kept idx t created w (inl e) came = (refl, (omega arith, omega arith))
  create_checked-Kept idx t created w (inr p) came =
      noted-Kept idx t created p w (import_params-user idx t came)

  Kept-trans :
      (w v : World) (t : TransferTask) (ts : List TransferTask)
      (r : World × (ImportError ⊎ Created))
      → others user v.tasks ≡ others user w.tasks
      → count_tasks user v.tasks ≡ count_tasks user w.tasks + 1
      → Kept v ts r
      → Kept w (t ∷ ts) r
  Kept-trans w v t ts (u, inl e) same added (kept, (low, high)) =
      (kept ∙ same, (omega arith, omega arith))
  Kept-trans w v t ts (u, inr c) same added (kept, counted) = (kept ∙ same, omega arith)

  create_all-Kept :
      (idx : ℕ) (ts : List TransferTask) (created : Created) (w : World)
      → Kept w ts (create_all env user idx ts created w)
  unfolding create_all create_one
  create_all-Kept idx [] created w = (refl, omega arith)
  create_all-Kept idx (t ∷ ts) created w =
      go _ (λ after v. create_all-Kept (idx + 1) ts after v)
        (create_checked-Kept idx t created w _ refl)
    where
      go :
          (one : World × (ImportError ⊎ Created))
          → ((after : Created) (v : World) → Kept v ts (create_all env user (idx + 1) ts after v))
          → Kept w (t ∷ []) one
          → Kept w (t ∷ ts) (elim one.1 [
            | inl e ↦ (one.0, inl e)
            | inr created' ↦ create_all env user (idx + 1) ts created' one.0
          ])
      go (v, inl e) rest (same, (low, high)) = (same, (low, omega arith))
      go (v, inr after) rest (same, added) =
          Kept-trans w v t ts (create_all env user (idx + 1) ts after v) same added (rest after v)

  count_tasks-query_link_task_dependency :
      (parent : Option Uuid) (trigger : Bool) (id : Uuid) (w : World)
      → count_tasks user (query_link_task_dependency env parent trigger id user w).tasks
        ≡ count_tasks user w.tasks
  unfolding query_link_task_dependency
  count_tasks-query_link_task_dependency parent trigger id w =
      count_tasks-update_where user _ _ w.tasks (λ t. refl)

  others-query_link_task_dependency :
      (parent : Option Uuid) (trigger : Bool) (id : Uuid) (w : World)
      → others user (query_link_task_dependency env parent trigger id user w).tasks
        ≡ others user w.tasks
  unfolding query_link_task_dependency
  others-query_link_task_dependency parent trigger id w =
      others-update_where id user _ w.tasks (λ t. refl)

  module _ (created : Created) (t : TransferTask) (w : World) where
    count_tasks-link_one :
        count_tasks user (link_one env user created t w).0.tasks ≡ count_tasks user w.tasks
    unfolding link_one
    count_tasks-link_one = grind (arith, count_tasks-query_link_task_dependency)

    others-link_one : others user (link_one env user created t w).0.tasks ≡ others user w.tasks
    unfolding link_one
    others-link_one = grind (arith, others-query_link_task_dependency)

  count_tasks-link_all :
      (created : Created) (ts : List TransferTask) (w : World)
      → count_tasks user (link_all env user created ts w).0.tasks ≡ count_tasks user w.tasks
  unfolding link_all
  count_tasks-link_all created [] w = refl
  count_tasks-link_all created (t ∷ ts) w = ground (
    arith,
    count_tasks-link_one created t w,
    count_tasks-link_all created ts (link_one env user created t w).0,
  )

  others-link_all :
      (created : Created) (ts : List TransferTask) (w : World)
      → others user (link_all env user created ts w).0.tasks ≡ others user w.tasks
  unfolding link_all
  others-link_all created [] w = refl
  others-link_all created (t ∷ ts) w = ground (
    arith,
    others-link_one created t w,
    others-link_all created ts (link_one env user created t w).0,
  )

  Kept-linked :
      (w v : World) (ts : List TransferTask) (created : Created)
      (second : World × Option ImportError)
      → Kept w ts (v, inr created)
      → count_tasks user second.0.tasks ≡ count_tasks user v.tasks
      → others user second.0.tasks ≡ others user v.tasks
      → Kept w ts (elim second.1 [ some e ↦ (second.0, inl e) | none ↦ (second.0, inr created) ])
  Kept-linked w v ts created (u, none) (same, added) counted kept = (kept ∙ same, counted ∙ added)
  Kept-linked w v ts created (u, some e) (same, added) counted kept =
      (kept ∙ same, (omega arith, omega arith))

  -- An import leaves the tasks of other users as they are. If it succeeds, the user has one task
  -- more for each task of the bundle, whatever the quota of the user's tier; and if it ends with an
  -- error, some of them may stay, but no more than the bundle has.
  import_user_tasks-adds :
      (ts : List TransferTask) (w : World)
      → (others user (import_user_tasks env user ts w).0.tasks ≡ others user w.tasks)
        × Added user w ts (import_user_tasks env user ts w)
  unfolding import_user_tasks
  import_user_tasks-adds ts w = go (create_all env user 0 ts [] w) (create_all-Kept 0 ts [] w)
    where
      go :
          (first : World × (ImportError ⊎ Created))
          → Kept w ts first
          → Kept w ts (elim first.1 [
            | inl e ↦ (first.0, inl e)
            | inr created ↦
                let second = link_all env user created ts first.0 in
                elim second.1 [ some e ↦ (second.0, inl e) | none ↦ (second.0, inr created) ]
          ])
      go (v, inl e) kept = kept
      go (v, inr created) kept =
          Kept-linked w v ts created (link_all env user created ts v) kept
            (count_tasks-link_all created ts v) (others-link_all created ts v)
