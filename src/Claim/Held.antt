-- ===== src/Claim/Held.antt =====
-- Rows that a worker holds, under a claim and under an update of other rows.
use gsactions_mcp.Claim.{claimable, sort_by_next_run, due_tasks, claimed_by, query_claim_due_tasks}
use gsactions_mcp.Claim.Taken.{All-take, All-sort_by_next_run}
use gsactions_mcp.Claim.Workers.{Run}
use gsactions_mcp.Common.{
  eq_iff, ℕ, String, ◌≡◌, refl, sym, ap, ◌∙◌, inl, inr, Bool, true, false, some, List, [], ◌∷◌,
  arith, if◌then◌else◌, Bool-cases, All, any,
}
use gsactions_mcp.Completion.Laws.{due}
use gsactions_mcp.Store.{Task, World, Query, claim_due_tasks, Env, status_active, status_processing}
use gsactions_mcp.Store.Laws.{uuid_eq→eq}
use gsactions_mcp.Store.Queries.{status_allowed, update_where, filter_where, exec, update_rows}
use gsactions_mcp.Uuid.{Uuid, uuid_eq}

-- A row with this id is processing, and locked by the worker.
abbrev pub HeldRow : Uuid → String → Task → Type 0
HeldRow id worker t =
    uuid_eq t.id id ≡ true → (t.status ≡ status_processing) × (t.locked_by ≡ some worker)

abbrev pub Held : List Task → Run → Type 0
Held ts r = All (HeldRow r.0 r.1) ts

All-unit : (ts : List Task) → All (λ t. Unit {0}) ts
All-unit [] = tt
All-unit (t ∷ ts) = (tt, All-unit ts)

All-update_where :
    (P Q : Task → Type 0) (p : Task → Bool) (f : Task → Task) (ts : List Task)
    → ((t : Task) → P t → Q (if p t then f t else t))
    → All P ts
    → All Q (update_where p f ts)
unfolding update_where
All-update_where P Q p f [] keep held = tt
All-update_where P Q p f (t ∷ ts) keep (h, hs) = (keep t h, All-update_where P Q p f ts keep hs)

pub All-filter :
    (P : Task → Type 0) (p : Task → Bool) (ts : List Task)
    → All P ts
    → All (λ t. (p t ≡ true) × P t) (filter_where p ts)
unfolding filter_where
All-filter P p [] held = tt
All-filter P p (t ∷ ts) (h, hs) = elim (Bool-cases (p t)) [
  | inl taken ↦ rw taken ((taken, h), All-filter P p ts hs)
  | inr left ↦ rw left (All-filter P p ts hs)
]

any-All :
    (P : Task → Type 0) (p : Task → Bool) (ts : List Task)
    → any p ts ≡ true
    → All P ts
    → (t : Task) × (p t ≡ true) × P t
any-All P p [] found held = cc
any-All P p (t ∷ ts) found (h, hs) = elim (Bool-cases (p t)) [
  | inl here ↦ (t, here, h)
  | inr not_here ↦ any-All P p ts (ground (arith, found, not_here)) hs
]

pub active-ne-processing : (s : String) → s ≡ status_active → s ≡ status_processing → ⊥
active-ne-processing s a b = cc (sym a ∙ b)

-- A task that a worker runs is not claimed.
not_due :
    (env : Env) (batch_size : ℕ) (r : Run) (ts : List Task)
    → Held ts r
    → any (λ s. uuid_eq s.id r.0) (due_tasks env batch_size ts) ≡ false
unfolding due_tasks claimable
not_due env batch_size (id, worker) ts held =
    elim (Bool-cases (any (λ s. uuid_eq s.id id) (due_tasks env batch_size ts))) [
      | inr free ↦ free
      | inl taken ↦
          let P = λ (s : Task). (claimable env ts s ≡ true) × HeldRow id worker s in
          let (s, same, (due, row_held)) =
            any-All P (λ s. uuid_eq s.id id) (due_tasks env batch_size ts) taken
              (All-take P batch_size (sort_by_next_run (filter_where (claimable env ts) ts)) (
                All-sort_by_next_run P (filter_where (claimable env ts) ts)
                  (All-filter (HeldRow id worker) (claimable env ts) ts held))) in
          absurd (
            active-ne-processing s.status (ground (arith, due, eq_iff s.status status_active))
              (row_held same).0)
    ]

-- Is the row with this id among those that a claim takes?
abbrev taken_by : Env → ℕ → List Task → Uuid → Bool
taken_by env batch_size ts id = any (λ s. uuid_eq s.id id) (due_tasks env batch_size ts)

taken_same :
    (env : Env) (batch_size : ℕ) (ts : List Task) (a b : Uuid)
    → uuid_eq a b ≡ true
    → taken_by env batch_size ts a ≡ taken_by env batch_size ts b
taken_same env batch_size ts a b same = ap (taken_by env batch_size ts) (uuid_eq→eq a b same)

-- A claim leaves the rows of other runs alone.
pub claim-Held :
    (env : Env) (batch_size : ℕ) (worker : String) (r : Run) (w : World)
    → env.fails claim_due_tasks ≡ false
    → Held w.tasks r
    → Held (query_claim_due_tasks env batch_size worker w).tasks r
unfolding query_claim_due_tasks
claim-Held env batch_size worker (id, other) w up held = rw up (
    All-update_where (HeldRow id other) (HeldRow id other)
      (λ t. taken_by env batch_size w.tasks t.id) (claimed_by worker) w.tasks
      (λ t h. elim (Bool-cases (taken_by env batch_size w.tasks t.id)) [
        | inr left ↦ rw left h
        | inl taken ↦ rw taken (λ same.
            let free = not_due env batch_size (id, other) w.tasks held in
            let also = taken_same env batch_size w.tasks t.id id same in absurd (cc))
      ])
      held)

-- The rows that a claim takes are held by its worker.
pub claimed-Held :
    (env : Env) (batch_size : ℕ) (worker : String) (id : Uuid) (w : World)
    → env.fails claim_due_tasks ≡ false
    → taken_by env batch_size w.tasks id ≡ true
    → Held (query_claim_due_tasks env batch_size worker w).tasks (id, worker)
unfolding query_claim_due_tasks
claimed-Held env batch_size worker id w up mine = rw up (
    All-update_where (λ t. Unit {0}) (HeldRow id worker) (λ t. taken_by env batch_size w.tasks t.id)
      (claimed_by worker) w.tasks
      (λ t _. elim (Bool-cases (taken_by env batch_size w.tasks t.id)) [
        | inl taken ↦ rw taken (λ same. (refl, refl))
        | inr left ↦
            rw left
              (λ same. let also = taken_same env batch_size w.tasks t.id id same in absurd (cc))
      ])
      (All-unit w.tasks))

-- An update that leaves out the rows of a run keeps it held.
pub rows-Held :
    (env : Env) (q : Query) (status : String) (p : Task → Bool) (f : Task → Task) (r : Run)
    (w : World)
    → ((t : Task) → (f t).id ≡ t.id)
    → ((t : Task) → uuid_eq t.id r.0 ≡ true → p t ≡ false)
    → Held w.tasks r
    → Held (update_rows env q status p f w).tasks r
unfolding update_rows exec
rows-Held env q status p f (id, worker) w keeps out held = elim (Bool-cases (env.fails q)) [
  | inl down ↦ rw down held
  | inr up ↦ elim (Bool-cases (status_allowed status)) [
    | inr bad ↦ rw (up, bad) held
    | inl good ↦
        rw (up, good)
          (All-update_where (HeldRow id worker) (HeldRow id worker) p f w.tasks
            (λ t h. elim (Bool-cases (p t)) [
              | inr left ↦ rw left h
              | inl hit ↦ rw hit (λ same.
                  let missed = out t (ap (λ i. uuid_eq i id) (sym (keeps t)) ∙ same) in absurd (cc))
            ])
            held)
  ]
]
