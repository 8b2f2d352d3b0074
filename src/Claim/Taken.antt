-- ===== src/Claim/Taken.antt =====
-- Which rows a claim takes.
use mathlib.Core.Option
use gsactions_mcp.Claim.{
  claimable, insert_by_next_run, sort_by_next_run, due_tasks, claimed_by, query_claim_due_tasks,
}
use gsactions_mcp.Common.{
  ℕ, zero, suc, String, ◌≡◌, refl, ap, ◌∙◌, ◌⊎◌, inl, inr, Bool, true, false, Option, none, some,
  List, [], ◌∷◌, arith, if◌then◌else◌, Bool-cases, All, any, take,
}
use gsactions_mcp.Common.Int.{ltb_ℤ}
use gsactions_mcp.Completion.Laws.{All-filter_where}
use gsactions_mcp.Presence.Limit.{later}
use gsactions_mcp.Store.{Task, World, claim_due_tasks, Env}
use gsactions_mcp.Store.Laws.{row, uuid_eq→eq, find-update_where, row-id}
use gsactions_mcp.Uuid.{Uuid, uuid_eq}

module _ (P : Task → Type 0) where
  pub All-take : (n : ℕ) (ts : List Task) → All P ts → All P (take n ts)
  All-take zero ts h = tt
  All-take (suc n) [] h = tt
  All-take (suc n) (t ∷ ts) (h, hs) = (h, All-take n ts hs)

  All-insert_by_next_run :
      (t : Task) (ts : List Task) → P t → All P ts → All P (insert_by_next_run t ts)
  unfolding insert_by_next_run
  All-insert_by_next_run t [] h hs = (h, tt)
  All-insert_by_next_run t (s ∷ ss) h (k, ks) = elim (Bool-cases (ltb_ℤ s.next_run t.next_run)) [
    | inl later ↦ rw later (k, All-insert_by_next_run t ss h ks)
    | inr first ↦ rw first (h, (k, ks))
  ]

  pub All-sort_by_next_run : (ts : List Task) → All P ts → All P (sort_by_next_run ts)
  unfolding sort_by_next_run
  All-sort_by_next_run [] h = tt
  All-sort_by_next_run (t ∷ ts) (h, hs) =
      All-insert_by_next_run t (sort_by_next_run ts) h (All-sort_by_next_run ts hs)

-- A row is among those selected: one that `p` holds of has its id.
selected-by :
    (p : Task → Bool) (id : Uuid) (ss : List Task)
    → All (λ s. p s ≡ true) ss
    → any (λ s. uuid_eq s.id id) ss ≡ true
    → (s : Task) × (p s ≡ true) × (s.id ≡ id)
selected-by p id [] h found = cc
selected-by p id (s ∷ ss) (h, hs) found = elim (Bool-cases (uuid_eq s.id id)) [
  | inl same ↦ (s, h, uuid_eq→eq s.id id same)
  | inr other ↦ selected-by p id ss hs (ground (arith, found, other))
]

-- An update by the id, seen at the row of one id.
module _ (q : Uuid → Bool) (f : Task → Task) (id : Uuid) (w : World) where
  pub map_by_id :
      (picked : Bool)
      → q id ≡ picked
      → Option.map (λ t. if q t.id then f t else t) (row id w)
        ≡ Option.map (λ t. if picked then f t else t) (row id w)
  map_by_id picked e = go (row id w) (λ t. row-id id w {t = t})
    where
      go :
          (o : Option Task)
          → ((t : Task) → o ≡ some t → t.id ≡ id)
          → Option.map (λ t. if q t.id then f t else t) o
            ≡ Option.map (λ t. if picked then f t else t) o
      go none same = refl
      go (some t) same = ap (λ b. some (if b then f t else t)) (ap q (same t refl) ∙ e)

map_same : (o : Option Task) → Option.map (λ (t : Task). t) o ≡ o
map_same none = refl
map_same (some t) = refl

module _ (env : Env) (batch_size : ℕ) (worker : String) (w : World) (id : Uuid) where
  due_tasks-claimable : All (λ s. claimable env w.tasks s ≡ true) (due_tasks env batch_size w.tasks)
  unfolding due_tasks
  due_tasks-claimable =
      All-take _ batch_size _
        (All-sort_by_next_run _ _ (All-filter_where (claimable env w.tasks) w.tasks))

  -- A claim leaves a row as it was, or makes it processing and locked by the worker; the latter only
  -- if a task of its id is active, due now, and its parent, if it has one, belongs to its user and is
  -- completed or active.
  query_claim_due_tasks-takes :
      (row id (query_claim_due_tasks env batch_size worker w) ≡ row id w)
      ⊎ ((s : Task) × (claimable env w.tasks s ≡ true)
          × (s.id ≡ id)
          × (row id (query_claim_due_tasks env batch_size worker w)
              ≡ Option.map (claimed_by worker) (row id w)))
  unfolding query_claim_due_tasks
  query_claim_due_tasks-takes =
      let selected = due_tasks env batch_size w.tasks in
      let q = λ (i : Uuid). any (λ s. uuid_eq s.id i) selected in
      let updated = find-update_where id (λ t. q t.id) (claimed_by worker) w.tasks (λ t. refl) in
      elim (Bool-cases (env.fails claim_due_tasks)) [
        | inl down ↦ inl (rw down refl)
        | inr up ↦ elim (Bool-cases (q id)) [
          | inr out ↦ inl (
              rw up
                (updated ∙ map_by_id q (claimed_by worker) id w false out ∙ map_same (row id w)))
          | inl picked ↦
              let (s, holds, same) =
                selected-by (claimable env w.tasks) id selected due_tasks-claimable picked in
              inr
                (s, holds, same, rw up (updated ∙ map_by_id q (claimed_by worker) id w true picked))
        ]
      ]
