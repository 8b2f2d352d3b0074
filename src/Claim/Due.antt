-- ===== src/Claim/Due.antt =====
-- A claim whose batch has room takes every row that is due.
use mathlib.Core.Option
use gsactions_mcp.Claim.{
  claimable, insert_by_next_run, sort_by_next_run, due_tasks, claimed_by, query_claim_due_tasks,
}
use gsactions_mcp.Claim.Taken.{map_by_id}
use gsactions_mcp.Common.{
  ℕ, zero, suc, ◌≤◌, String, ◌≡◌, refl, ap, ◌∙◌, inl, inr, Bool, true, false, ◌||◌, some, List, [],
  ◌∷◌, arith, Bool-cases, some-inj, none-ne-some, length, any, take,
}
use gsactions_mcp.Completion.Laws.{due}
use gsactions_mcp.Store.{Task, World, claim_due_tasks, Env}
use gsactions_mcp.Store.Laws.{row, find-update_where}
use gsactions_mcp.Store.Queries.{has_id, find_where, filter_where}
use gsactions_mcp.Uuid.{Uuid}

module _ (q : Task → Bool) where
  any-insert_by_next_run :
      (t : Task) (ts : List Task) → any q (insert_by_next_run t ts) ≡ (q t || any q ts)
  unfolding insert_by_next_run
  any-insert_by_next_run t [] = refl
  any-insert_by_next_run t (s ∷ ss) = ground (arith, any-insert_by_next_run t ss)

  any-sort_by_next_run : (ts : List Task) → any q (sort_by_next_run ts) ≡ any q ts
  unfolding sort_by_next_run
  any-sort_by_next_run [] = refl
  any-sort_by_next_run (t ∷ ts) =
      any-insert_by_next_run t (sort_by_next_run ts) ∙ ap (λ b. q t || b) (any-sort_by_next_run ts)

length-insert_by_next_run :
    (t : Task) (ts : List Task) → length (insert_by_next_run t ts) ≡ suc (length ts)
unfolding insert_by_next_run
length-insert_by_next_run t [] = refl
length-insert_by_next_run t (s ∷ ss) = ground (arith, length-insert_by_next_run t ss)

length-sort_by_next_run : (ts : List Task) → length (sort_by_next_run ts) ≡ length ts
unfolding sort_by_next_run
length-sort_by_next_run [] = refl
length-sort_by_next_run (t ∷ ts) =
    length-insert_by_next_run t (sort_by_next_run ts) ∙ ap suc (length-sort_by_next_run ts)

length-filter_where : (p : Task → Bool) (ts : List Task) → length (filter_where p ts) ≤ length ts
unfolding filter_where
length-filter_where p [] = omega arith
length-filter_where p (t ∷ ts) = ground (arith, length-filter_where p ts)

take-all : (n : ℕ) (ts : List Task) → length ts ≤ n → take n ts ≡ ts
take-all zero [] h = refl
take-all (suc n) [] h = refl
take-all zero (t ∷ ts) h = absurd (omega (arith, h))
take-all (suc n) (t ∷ ts) h = ap (λ l. t ∷ l) (take-all n ts (omega (arith, h)))

any-filter_where :
    (id : Uuid) (p : Task → Bool) (ts : List Task) {t : Task}
    → find_where (has_id id) ts ≡ some t
    → p t ≡ true
    → any (has_id id) (filter_where p ts) ≡ true
unfolding find_where filter_where
any-filter_where id p [] h k = absurd (none-ne-some h)
any-filter_where id p (s ∷ ts) {t} h k = elim (Bool-cases (has_id id s)) [
  | inl here ↦
      let same : s ≡ t = some-inj (rw here at h) in
      let kept : p s ≡ true = ap p same ∙ k in rw kept (rw here refl)
  | inr other ↦
      let rest = any-filter_where id p ts {t = t} (rw other at h) k in
      elim (Bool-cases (p s)) [
        | inl kept ↦ rw kept (rw (other, rest) refl)
        | inr left ↦ rw left rest
      ]
]

module _ (env : Env) (batch_size : ℕ) (worker : String) (w : World) (id : Uuid) where
  due_tasks-row :
      {t : Task}
      → length w.tasks ≤ batch_size
      → row id w ≡ some t
      → claimable env w.tasks t ≡ true
      → any (has_id id) (due_tasks env batch_size w.tasks) ≡ true
  unfolding due_tasks
  due_tasks-row {t} room here due =
      let picked = filter_where (claimable env w.tasks) w.tasks in
      ap (any (has_id id)) (
        take-all batch_size (sort_by_next_run picked) (
          omega (
            arith,
            room,
            length-sort_by_next_run picked,
            length-filter_where (claimable env w.tasks) w.tasks,
          )))
      ∙ any-sort_by_next_run (has_id id) picked
      ∙ any-filter_where id (claimable env w.tasks) w.tasks {t = t} here due

  pub row-query_claim_due_tasks :
      {t : Task}
      → env.fails claim_due_tasks ≡ false
      → length w.tasks ≤ batch_size
      → row id w ≡ some t
      → claimable env w.tasks t ≡ true
      → row id (query_claim_due_tasks env batch_size worker w) ≡ some (claimed_by worker t)
  unfolding query_claim_due_tasks
  row-query_claim_due_tasks {t} up room here due =
      let q = λ (i : Uuid). any (has_id i) (due_tasks env batch_size w.tasks) in
      rw up (
        find-update_where id (λ s. q s.id) (claimed_by worker) w.tasks (λ s. refl)
        ∙ map_by_id q (claimed_by worker) id w true (due_tasks-row {t = t} room here due)
        ∙ ap (Option.map (claimed_by worker)) here)
