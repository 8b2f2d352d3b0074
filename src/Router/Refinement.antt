-- ===== src/Router/Refinement.antt =====
-- The routers implement the step that they are specified by.
use gsactions_mcp.Answer.{Client, parse_llm_choice}
use gsactions_mcp.Common.{
  ◌==◌, ℕ, String, ◌≡◌, refl, sym, ap, subst, ◌∙◌, ◌⊎◌, inl, inr, true, false, Option, some, List,
  [], ◌∷◌, arith, nat_eq, Bool-cases, Option-cases, some-inj, none-ne-some, length,
}
use gsactions_mcp.Dispatch.{trace_output, trace_input}
use gsactions_mcp.Dispatch.Rows.{tasks-trace_error, tasks-trace_output, tasks-trace_input}
use gsactions_mcp.Json.{Json}
use gsactions_mcp.Privacy.{mask_sensitive_data}
use gsactions_mcp.Router.{finish_route, halt_route, options_text}
use gsactions_mcp.Router.Config.{SwarmConfig, swarm_config_of}
use gsactions_mcp.Router.Council.{
  Answers, agent_turn, agent_turns, consensus, chosen_of, run_council, convene,
  execute_swarm_router,
}
use gsactions_mcp.Router.Debate.{debate, conclude_debate, decide, execute_decision_router}
use gsactions_mcp.Router.Effects.{
  RouteStep, stays, finish_route-none-RouteStep, finish_route-RouteStep, silent-Unmatched,
  halt_route-RouteStep,
}
use gsactions_mcp.Store.{Task, World, get_dependent_tasks, Env, Up, needs_routing}
use gsactions_mcp.Store.Queries.{
  status_allowed, filter_where, exec, update_rows, depends_on, query_update_task_status,
  query_get_dependent_tasks,
}

-- The choice that the judge's answer to the debate on the rows that wait for the router gives.
abbrev pub Judged : Client → Task → String → List Task → String → Type 0
Judged client t prev_output ts choice =
    (res : Option Json) × (debate client prev_output (filter_where (depends_on t.id) ts) ≡ inl res)
    × (parse_llm_choice client.parse_json res ≡ choice)

-- What a council comes to, once its agents have been asked about some rows.
abbrev verdict_of : Env → Client → Task → String → World → List Task → SwarmConfig → String
verdict_of env client t prev_output w ds cfg =
    let options = options_text "- (missing key in branch condition)\n" ds in
    (consensus client cfg options
      (agent_turns env client t cfg prev_output options (client.finishing (length cfg.council))
        (w, [])).1).0

-- The choice that a council with members comes to on the rows that wait for the router.
abbrev pub Agreed : Env → Client → Task → String → World → String → Type 0
Agreed env client t prev_output w choice =
    (cfg : SwarmConfig) × (swarm_config_of t.swarm_config ≡ some cfg)
    × (nat_eq (length cfg.council) 0 ≡ false)
    × (verdict_of env client t prev_output w (filter_where (depends_on t.id) w.tasks) cfg ≡ choice)

-- The choice in an answer of the judge.
abbrev choice_in : Client → Option Json ⊎ String → String
choice_in client (inl res) = parse_llm_choice client.parse_json res
choice_in client (inr error) = ""

module _ (env : Env) (up : Up env) (client : Client) (t : Task) where
  -- Other lists that are equal to those of a step.
  step_from :
      {said : String → Type 0} {ts old new : List Task}
      → old ≡ ts
      → RouteStep env t said old new
      → RouteStep env t said ts new
  step_from {said = said} {new = new} same = subst (λ l. RouteStep env t said l new) same

  step_to :
      {said : String → Type 0} {ts old new : List Task}
      → new ≡ old
      → RouteStep env t said ts old
      → RouteStep env t said ts new
  step_to {said = said} {ts = ts} same = subst (RouteStep env t said ts) (sym same)

  dependents_read :
      (w : World)
      → query_get_dependent_tasks env t.id w ≡ some (filter_where (depends_on t.id) w.tasks)
  unfolding query_get_dependent_tasks
  dependents_read w = rw (up get_dependent_tasks) refl

  module _ (said : String → Type 0) where
    conclude_debate-RouteStep :
        (ds : List Task) (choice : String) (w : World)
        → filter_where (depends_on t.id) w.tasks ≡ ds
        → said choice
        → ((c : String) → said c → c ≡ choice)
        → RouteStep env t said w.tasks (conclude_debate env t ds choice w).tasks
    unfolding conclude_debate
    conclude_debate-RouteStep ds choice w read says only = elim (Bool-cases (choice == "")) [
      | inl silent ↦ rw silent (
          step_to (tasks-trace_error env t _ _ (halt_route env t w)) (
            halt_route-RouteStep env up t said w
              (silent-Unmatched env up t said choice w.tasks silent only)))
      | inr named ↦ rw named (
          step_from (tasks-trace_output env t _ _ w) (
            finish_route-RouteStep env up t said ds choice _
              (ap (filter_where (depends_on t.id)) (tasks-trace_output env t _ _ w) ∙ read) named
              says only))
    ]

    chosen-RouteStep :
        (ds : List Task) (choice : String) (w : World)
        → filter_where (depends_on t.id) w.tasks ≡ ds
        → said choice
        → ((c : String) → said c → c ≡ choice)
        → RouteStep env t said w.tasks (finish_route env t (chosen_of choice ds) w).tasks
    chosen-RouteStep ds choice w read says only = elim (Bool-cases (choice == "")) [
      | inl silent ↦ rw silent (
          finish_route-none-RouteStep env up t said w
            (silent-Unmatched env up t said choice w.tasks silent only))
      | inr named ↦ rw named (finish_route-RouteStep env up t said ds choice w read named says only)
    ]

  decide-RouteStep :
      (prev_output : String) (ts : List Task) (answer : Option Json ⊎ String) (w : World)
      → w.tasks ≡ ts
      → debate client prev_output (filter_where (depends_on t.id) ts) ≡ answer
      → RouteStep env t
          (Judged client t prev_output ts)
          w.tasks
          (decide env client t (filter_where (depends_on t.id) ts) answer w).tasks
  unfolding decide
  decide-RouteStep prev_output ts (inl res) w same answered =
      conclude_debate-RouteStep (Judged client t prev_output ts) _ _ w
        (ap (filter_where (depends_on t.id)) same) (res, answered, refl)
        (λ c said_it.
          let (res', given, parsed) = said_it in
          sym parsed ∙ ap (choice_in client) (sym given ∙ answered))
  decide-RouteStep prev_output ts (inr error) w same answered =
      step_to (tasks-trace_error env t _ _ (halt_route env t w)) (
        halt_route-RouteStep env up t (Judged client t prev_output ts) w
          (λ d c there waits key named said_it.
            let (res, given, parsed) = said_it in absurd (cc (sym given ∙ answered))))

  execute_decision_router-RouteStep :
      (prev_output : String) (w : World)
      → RouteStep env t
          (Judged client t prev_output w.tasks)
          w.tasks
          (execute_decision_router env client t prev_output w).tasks
  unfolding execute_decision_router
  execute_decision_router-RouteStep prev_output w =
      let started =
        trace_input env t "Decision Router Start" (mask_sensitive_data env prev_output) w in
      let same = tasks-trace_input env t "Decision Router Start" _ w in
      let found =
        dependents_read started ∙ ap (λ l. some (filter_where (depends_on t.id) l)) same in
      rw (found, execute_decision_router)
        (step_from same (decide-RouteStep prev_output w.tasks _ started same refl))

  tasks-agent_turn :
      (cfg : SwarmConfig) (prev_output options : String) (n : ℕ) (s : Answers)
      → (agent_turn env client t cfg prev_output options n s).0.tasks ≡ s.0.tasks
  unfolding agent_turn
  tasks-agent_turn cfg prev_output options n (w, m) = grind (arith, tasks-trace_output env t)

  tasks-agent_turns :
      (cfg : SwarmConfig) (prev_output options : String) (ns : List ℕ) (s : Answers)
      → (agent_turns env client t cfg prev_output options ns s).0.tasks ≡ s.0.tasks
  unfolding agent_turns
  tasks-agent_turns cfg prev_output options [] s = refl
  tasks-agent_turns cfg prev_output options (n ∷ ns) s =
      tasks-agent_turns cfg prev_output options ns
        (agent_turn env client t cfg prev_output options n s)
      ∙ tasks-agent_turn cfg prev_output options n s

  -- No row may have the status needs_routing, so the statement is refused.
  tasks-refused :
      (w : World) → (query_update_task_status env needs_routing t.id t.user_id w).tasks ≡ w.tasks
  unfolding query_update_task_status update_rows exec status_allowed
  tasks-refused w = ground arith

  run_council-RouteStep :
      (cfg : SwarmConfig) (prev_output : String) (w : World)
      → swarm_config_of t.swarm_config ≡ some cfg
      → nat_eq (length cfg.council) 0 ≡ false
      → RouteStep env t
          (Agreed env client t prev_output w)
          w.tasks
          (run_council env client t cfg prev_output
            (filter_where (depends_on t.id) w.tasks)
            w).tasks
  unfolding run_council
  run_council-RouteStep cfg prev_output w known seated =
      let ds = filter_where (depends_on t.id) w.tasks in
      let options = options_text "- (missing key in branch condition)\n" ds in
      let asked =
        agent_turns env client t cfg prev_output options (client.finishing (length cfg.council))
          (w, []) in
      let verdict = consensus client cfg options asked.1 in
      let traced = trace_output env t "Swarm Consensus Reached" verdict.1 asked.0 in
      let same : traced.tasks ≡ w.tasks =
        tasks-trace_output env t "Swarm Consensus Reached" verdict.1 asked.0
        ∙ tasks-agent_turns cfg prev_output options _ (w, []) in
      step_from same (
        chosen-RouteStep (Agreed env client t prev_output w) ds verdict.0 traced
          (ap (filter_where (depends_on t.id)) same) (cfg, known, seated, refl)
          (λ c said_it.
            let (cfg', read, members, reached) = said_it in
            sym reached
            ∙ ap (verdict_of env client t prev_output w ds) (some-inj (sym read ∙ known))))

  convene-RouteStep :
      (cfg : SwarmConfig) (prev_output : String) (w : World)
      → swarm_config_of t.swarm_config ≡ some cfg
      → RouteStep env t
          (Agreed env client t prev_output w)
          w.tasks
          (convene env client t prev_output cfg w).tasks
  unfolding convene
  convene-RouteStep cfg prev_output w known = elim (Bool-cases (nat_eq (length cfg.council) 0)) [
    | inl empty ↦ rw empty (
        step_to (tasks-refused w) (
          stays (λ d c there waits key named said_it.
            let (cfg', read, members, reached) = said_it in
            let none_there : nat_eq (length cfg'.council) 0 ≡ true =
              ap (λ x. nat_eq (length x.council) 0) (some-inj (sym read ∙ known)) ∙ empty in
            absurd (cc))))
    | inr seated ↦
        rw (seated, dependents_read w, convene)
          (run_council-RouteStep cfg prev_output w known seated)
  ]

  -- Both routers implement the abstract step, whatever the model answers and in whatever order its
  -- answers come. If a row that waits for the router has the choice that was made, a text that is not
  -- empty, as its branch key, exactly one such choice is carried out: a row with this key is made due,
  -- and the router is completed. If there is no such row, the table is unchanged, or the router is
  -- halted for a person. The choice is the one that the judge's answer gives, or the one that the
  -- council, if it has members, comes to. This is for calls that succeed.
  pub routers-RouteStep :
      (prev_output : String) (w : World)
      → RouteStep env t
          (Judged client t prev_output w.tasks)
          w.tasks
          (execute_decision_router env client t prev_output w).tasks
        × RouteStep env t
            (Agreed env client t prev_output
              (trace_input env t "Swarm Router Start" (mask_sensitive_data env prev_output) w))
            w.tasks
            (execute_swarm_router env client t prev_output w).tasks
  unfolding execute_swarm_router
  routers-RouteStep prev_output w =
      let started =
        trace_input env t "Swarm Router Start" (mask_sensitive_data env prev_output) w in
      let same = tasks-trace_input env t "Swarm Router Start" _ w in
      (
        execute_decision_router-RouteStep prev_output w,
        elim (Option-cases (swarm_config_of t.swarm_config)) [
          | inl unread ↦
              rw (unread, execute_swarm_router)
                (step_to same (
                  stays (λ d c there waits key named said_it.
                    let (cfg, read, members, reached) = said_it in
                    none-ne-some (sym unread ∙ read))))
          | inr (cfg, read) ↦
              rw (read, execute_swarm_router)
                (step_from same (convene-RouteStep cfg prev_output started read))
        ],
      )
