-- ===== src/Router/Effects.antt =====
-- What the routers do to the tasks.
use gsactions_mcp.Common.{
  ◌==◌, eq_iff, eq_refl, String, ◌≡◌, refl, sym, ap, subst, ◌∙◌, inl, inr, Bool, true, false,
  Option, none, some, List, [], ◌∷◌, Memᴰ, arith, Bool-cases, Option-cases, some-inj, none-ne-some,
  All,
}
use gsactions_mcp.Completion.Laws.{due, filter_where-Memᴰ}
use gsactions_mcp.Json.{text_or_empty}
use gsactions_mcp.Router.{branch_key, choose_dependent, finish_route, halt_route}
use gsactions_mcp.Store.{
  Task, World, Query, Env, Up, status_active, status_completed, status_halted, needs_routing,
}
use gsactions_mcp.Store.Laws.{allowed_active, allowed_halted, allowed_completed}
use gsactions_mcp.Store.Queries.{
  status_allowed, update_where, has_id, owned, filter_where, update_rows, depends_on,
  query_update_task_next_run, query_update_task_approval_status,
  query_update_task_approval_status_and_last_run, query_update_task_status_and_last_run,
}

-- The row of a router that waits for a person.
abbrev pub halted : Task → Task
halted t = record t {
  last_approval_status = needs_routing;
  status = status_halted;
  locked_by = none;
}

abbrev halted_now : Env → Task → Task
halted_now env t = record (halted t) { last_run = some env.now }

abbrev completed_now : Env → Task → Task
completed_now env t = record t {
  status = status_completed;
  locked_by = none;
  last_run = some env.now;
}

-- No row that waits for the router has a choice that was made, a text that is not empty, as its key.
abbrev pub Unmatched : Task → (String → Type 0) → List Task → Type 0
Unmatched t said ts =
    (d : Task) (choice : String)
    → Memᴰ d ts
    → depends_on t.id d ≡ true
    → branch_key d ≡ some (some choice)
    → (choice == "") ≡ false
    → said choice
    → ⊥

-- What a router may do to the table: nothing, halt itself, or make one row due that waits for it and
-- has the choice that was made as its key, and complete itself. `said` holds of that choice. It does
-- nothing, or halts, only where no row has the choice.
pub data RouteStep (env : Env) (t : Task) (said : String → Type 0) (ts : List Task)
    : List Task → Type 0 where
  stays : Unmatched t said ts → RouteStep env t said ts ts
  halts :
      Unmatched t said ts → RouteStep env t said ts (update_where (owned t.id t.user_id) halted ts)
  halts_stamped :
      Unmatched t said ts
      → RouteStep env t said ts (update_where (owned t.id t.user_id) (halted_now env) ts)
  chooses :
      (d : Task) (choice : String)
      → Memᴰ d ts
      → depends_on t.id d ≡ true
      → branch_key d ≡ some (some choice)
      → (choice == "") ≡ false
      → said choice
      → RouteStep env t said ts (
          update_where
            (owned t.id t.user_id)
            (completed_now env)
            (update_where (has_id d.id) (due env) ts))

key_of_choice :
    (choice : String) (key : Option String)
    → (choice == "") ≡ false
    → (text_or_empty key == choice) ≡ true
    → key ≡ some choice
key_of_choice choice none named same = ground (arith, eq_iff "" choice, eq_refl "")
key_of_choice choice (some k) named same = ap some ((eq_iff k choice).0 same)

choose_dependent_sound :
    (choice : String) (P : Task → Type 0) (ds : List Task) {d : Task}
    → All P ds
    → (choice == "") ≡ false
    → choose_dependent choice ds ≡ some d
    → P d × (branch_key d ≡ some (some choice))
unfolding choose_dependent
choose_dependent_sound choice P [] h named e = cc
choose_dependent_sound choice P (s ∷ ds) {d} (h, hs) named e = elim (Option-cases (branch_key s)) [
  | inl undecoded ↦
      choose_dependent_sound choice P ds {d = d} hs named (rw (undecoded, choose_dependent) at e)
  | inr (key, decoded) ↦ elim (Bool-cases (text_or_empty key == choice)) [
    | inr other ↦
        choose_dependent_sound choice P ds {d = d} hs named (ground (arith, e, decoded, other))
    | inl same ↦
        let here : s ≡ d = some-inj (rw (decoded, same, choose_dependent) at e) in
        subst (λ r. P r × (branch_key r ≡ some (some choice))) here
          (h, decoded ∙ ap some (key_of_choice choice key named same))
  ]
]

-- Rows of the table that wait for the router.
abbrev Waiting : Task → List Task → List Task → Type 0
Waiting t ts ds = All (λ d. Memᴰ d ts × (depends_on t.id d ≡ true)) ds

choose_dependent-none :
    (choice : String) (ds : List Task) (d : Task)
    → choose_dependent choice ds ≡ none
    → Memᴰ d ds
    → branch_key d ≡ some (some choice)
    → ⊥
unfolding choose_dependent
choose_dependent-none choice [] d nobody there key = elim there [ ]
choose_dependent-none choice (s ∷ ds) d nobody (Memᴰ.head same) key =
    let here : branch_key s ≡ some (some choice) = ap branch_key (sym same) ∙ key in
    none-ne-some (sym (rw (here, eq_refl choice, choose_dependent) at nobody))
choose_dependent-none choice (s ∷ ds) d nobody (Memᴰ.tail there) key =
    elim (Option-cases (branch_key s)) [
      | inl undecoded ↦
          choose_dependent-none choice ds d (rw (undecoded, choose_dependent) at nobody) there key
      | inr (k, decoded) ↦ elim (Bool-cases (text_or_empty k == choice)) [
        | inl same ↦ absurd (none-ne-some (sym (rw (decoded, same, choose_dependent) at nobody)))
        | inr other ↦
            choose_dependent-none choice ds d (rw (decoded, other, choose_dependent) at nobody)
              there key
      ]
    ]

Memᴰ-filter_where :
    (p : Task → Bool) (ts : List Task) (d : Task)
    → Memᴰ d ts
    → p d ≡ true
    → Memᴰ d (filter_where p ts)
unfolding filter_where
Memᴰ-filter_where p [] d there holds = elim there [ ]
Memᴰ-filter_where p (s ∷ ts) d (Memᴰ.head same) holds =
    let here : p s ≡ true = ap p (sym same) ∙ holds in rw here (Memᴰ.head same)
Memᴰ-filter_where p (s ∷ ts) d (Memᴰ.tail there) holds =
    let rest = Memᴰ-filter_where p ts d there holds in
    elim (Bool-cases (p s)) [ inl kept ↦ rw kept (Memᴰ.tail rest) | inr left ↦ rw left rest ]

module _ (env : Env) (up : Up env) (t : Task) (said : String → Type 0) where
  tasks-update_rows :
      (q : Query) (status : String) (p : Task → Bool) (f : Task → Task) (w : World)
      → status_allowed status ≡ true
      → (update_rows env q status p f w).tasks ≡ update_where p f w.tasks
  unfolding update_rows
  tasks-update_rows q status p f w allowed = rw (up q, allowed) refl

  pub finish_route-none-RouteStep :
      (w : World)
      → Unmatched t said w.tasks
      → RouteStep env t said w.tasks (finish_route env t none w).tasks
  unfolding finish_route query_update_task_approval_status_and_last_run
  finish_route-none-RouteStep w unmatched =
      subst (RouteStep env t said w.tasks)
        (sym (tasks-update_rows _ status_halted _ (halted_now env) w allowed_halted))
        (halts_stamped unmatched)

  finish_some :
      (d : Task) (choice : String) (w : World)
      → Memᴰ d w.tasks
      → depends_on t.id d ≡ true
      → branch_key d ≡ some (some choice)
      → (choice == "") ≡ false
      → said choice
      → RouteStep env t said w.tasks (finish_route env t (some d) w).tasks
  unfolding finish_route query_update_task_status_and_last_run query_update_task_next_run
  finish_some d choice w there waits key named says =
      let woken = tasks-update_rows _ status_active (has_id d.id) (due env) w allowed_active in
      subst (RouteStep env t said w.tasks)
        (sym (
          tasks-update_rows _ status_completed _ (completed_now env) _ allowed_completed
          ∙ ap (update_where (owned t.id t.user_id) (completed_now env)) woken))
        (chooses d choice there waits key named says)

  -- The dependents are those of the table, and no other choice was made.
  pub finish_route-RouteStep :
      (ds : List Task) (choice : String) (w : World)
      → filter_where (depends_on t.id) w.tasks ≡ ds
      → (choice == "") ≡ false
      → said choice
      → ((c : String) → said c → c ≡ choice)
      → RouteStep env t said w.tasks (finish_route env t (choose_dependent choice ds) w).tasks
  finish_route-RouteStep ds choice w read named says only =
      let waiting =
        subst (λ l. Waiting t w.tasks l) read (filter_where-Memᴰ (depends_on t.id) w.tasks) in
      elim (Option-cases (choose_dependent choice ds)) [
        | inl nobody ↦ rw nobody (
            finish_route-none-RouteStep w (λ d c there waits key given said_it.
              choose_dependent-none choice ds d nobody
                (subst (Memᴰ d) read (Memᴰ-filter_where _ w.tasks d there waits))
                (key ∙ ap (λ k. some (some k)) (only c said_it))))
        | inr (d, found) ↦
            let ((there, waits), key) =
              choose_dependent_sound choice _ ds {d = d} waiting named found in
            rw found (finish_some d choice w there waits key named says)
      ]

  -- The empty text is no choice.
  pub silent-Unmatched :
      (choice : String) (ts : List Task)
      → (choice == "") ≡ true
      → ((c : String) → said c → c ≡ choice)
      → Unmatched t said ts
  silent-Unmatched choice ts silent only d c there waits key named says =
      let empty = ap (λ s. s == "") (only c says) ∙ silent in absurd (cc)

  pub halt_route-RouteStep :
      (w : World)
      → Unmatched t said w.tasks
      → RouteStep env t said w.tasks (halt_route env t w).tasks
  unfolding halt_route query_update_task_approval_status
  halt_route-RouteStep w unmatched =
      subst (RouteStep env t said w.tasks)
        (sym (tasks-update_rows _ status_halted _ halted w allowed_halted)) (halts unmatched)
