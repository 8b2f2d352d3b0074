-- ===== src/Router/Council.antt =====
-- cmd/server/scheduler.go executeSwarmRouter: a council votes, or advises a supervisor.
-- agentResponses[name] = response
use gsactions_mcp.Answer.{Client, extract_raw_text, parse_llm_choice}
use gsactions_mcp.Common.{
  ◌==◌, ℕ, String, ◌<>◌, ◌⊎◌, inl, inr, Bool, Option, none, some, List, [], ◌∷◌, map, ltb, nat_eq,
  if◌then◌else◌, length, get_elem?,
}
use gsactions_mcp.Common.Int.{pos}
use gsactions_mcp.Dispatch.{show_int, trace_output, trace_input}
use gsactions_mcp.Json.{Json}
use gsactions_mcp.Privacy.{mask_sensitive_data}
use gsactions_mcp.Router.{choose_dependent, finish_route, options_text, concat_texts}
use gsactions_mcp.Router.Config.{SwarmAgent, SwarmConfig, swarm_config_of}
use gsactions_mcp.Store.{Task, World, Env, needs_routing}
use gsactions_mcp.Store.Queries.{query_update_task_status, query_get_dependent_tasks}
use gsactions_mcp.Vote.{Poll, poll, tie_count, empty_poll, resolve_votes}

unfoldable pub put_response : String → String → List (String × String) → List (String × String)
put_response k v [] = (k, v) ∷ []
put_response k v ((j, u) ∷ m) = if j == k then (j, v) ∷ m else (j, u) ∷ put_response k v m

is_voting : SwarmConfig → Bool
is_voting cfg = cfg.consensus_mode == "voting"

agent_prompt_of : SwarmConfig → SwarmAgent → String → String → String
unfolding is_voting
agent_prompt_of cfg a prev_output options =
    if is_voting cfg
    then "You are "
      <> (a.name
          <> (". "
              <> (a.prompt
                  <> ("\n\nAnalyze this input:\n"
                      <> (prev_output
                          <> ("\n\nAvailable options:\n"
                              <> (options
                                  <> "\nOutput JSON with a single key 'choice' containing your selected option.")))))))
    else "You are "
      <> (a.name
          <> (". "
              <> (a.prompt
                  <> ("\n\nProvide a detailed analysis of this input:\n"
                      <> (prev_output
                          <> ("\n\nAvailable options are:\n"
                              <> (options <> "\nState which option you recommend and why.")))))))

-- What an agent's answer adds to the map.
unfoldable pub add_response :
    Client
    → SwarmConfig
    → SwarmAgent
    → Option Json
    → List (String × String)
    → List (String × String)
unfolding is_voting
add_response client cfg a res m =
    let choice = parse_llm_choice client.parse_json res in
    if is_voting cfg
    then (if choice == "" then m else put_response a.name choice m)
    else put_response a.name (extract_raw_text res) m

abbrev pub Answers : Type 0
Answers = World × List (String × String)

-- The goroutine of agent `n`.
unfoldable pub agent_turn :
    Env → Client → Task → SwarmConfig → String → String → ℕ → Answers → Answers
unfolding agent_prompt_of
agent_turn env client t cfg prev_output options n (w, m) = elim (get_elem? cfg.council n) [
  | none ↦ (w, m)
  | some a ↦ elim (client.request_sampling n (agent_prompt_of cfg a prev_output options)) [
    | inr error ↦ (w, m)
    | inl res ↦ (
      trace_output env t ("Swarm Agent: " <> a.name) (extract_raw_text res) w,
      add_response client cfg a res m,
    )
  ]
]

unfoldable pub agent_turns :
    Env → Client → Task → SwarmConfig → String → String → List ℕ → Answers → Answers
agent_turns env client t cfg prev_output options [] s = s
agent_turns env client t cfg prev_output options (n ∷ ns) s =
    agent_turns env client t cfg prev_output options ns
      (agent_turn env client t cfg prev_output options n s)

debate_line : String × String → String
debate_line (name, response) = "Agent " <> (name <> (" analysis:\n" <> (response <> "\n---\n")))

-- The request to the supervisor, which is the one behind those of the council.
supervise : Client → SwarmConfig → String → List (String × String) → Option Json ⊎ String
unfolding debate_line concat_texts
supervise client cfg options m = client.request_sampling (length cfg.council) (
    cfg.supervisor_prompt
    <> ("\n\nDebate Transcript:\n"
        <> (concat_texts (map debate_line (client.range m))
            <> ("\n\nAvailable options:\n"
                <> (options
                    <> "\nOutput JSON with a single key 'choice' containing your selected option.")))))

-- finalChoice and consensusDetails after the supervisor's answer
supervised : Client → Option Json ⊎ String → String × String
supervised client (inl (some res)) =
    let choice = parse_llm_choice client.parse_json (some res) in
    (choice, "Supervisor chose: " <> choice)
supervised client _ = ("", "Supervisor failed to respond")

join_tally : List (String × String) → String
join_tally [] = ""
join_tally ((opt, n) ∷ []) = opt <> ("=" <> n)
join_tally ((opt, n) ∷ rest) = opt <> ("=" <> (n <> (", " <> join_tally rest)))

-- consensusDetails of a vote
tally_text : Client → Poll → String
unfolding join_tally
tally_text client p =
    "Vote Tally: "
    <> (join_tally (client.range (map (λ e. (e.0, show_int (pos e.1))) p.counts))
        <> (if ltb 1 (tie_count p.max_count p.counts) then " (Tie Detected)" else ""))

-- finalChoice and consensusDetails
unfoldable pub consensus : Client → SwarmConfig → String → List (String × String) → String × String
unfolding is_voting supervise supervised tally_text
consensus client cfg options m =
    if is_voting cfg
    then (let votes = map (λ e. e.1) (client.range m) in
        (resolve_votes votes, tally_text client (poll empty_poll votes)))
    else if cfg.consensus_mode == "supervisor"
    then supervised client (supervise client cfg options m)
    else ("", "")

abbrev pub chosen_of : String → List Task → Option Task
chosen_of choice dependents = if choice == "" then none else choose_dependent choice dependents

-- The router once its council is known not to be empty and the dependents are there.
unfoldable pub run_council : Env → Client → Task → SwarmConfig → String → List Task → World → World
run_council env client t cfg prev_output dependents w =
    let options = options_text "- (missing key in branch condition)\n" dependents in
    let asked =
      agent_turns env client t cfg prev_output options (client.finishing (length cfg.council))
        (w, []) in
    let (choice, details) = consensus client cfg options asked.1 in
    finish_route env t (chosen_of choice dependents)
      (trace_output env t "Swarm Consensus Reached" details asked.0)

unfoldable pub convene : Env → Client → Task → String → SwarmConfig → World → World
unfolding run_council
convene env client t prev_output cfg w =
    if nat_eq (length cfg.council) 0
    then query_update_task_status env needs_routing t.id t.user_id w
    else elim (query_get_dependent_tasks env t.id w) [
      | none ↦ w
      | some dependents ↦ run_council env client t cfg prev_output dependents w
    ]

-- executeSwarmRouter
unfoldable pub execute_swarm_router : Env → Client → Task → String → World → World
execute_swarm_router env client t prev_output w =
    let started = trace_input env t "Swarm Router Start" (mask_sensitive_data env prev_output) w in
    elim (swarm_config_of t.swarm_config) [
      | none ↦ started
      | some cfg ↦ convene env client t prev_output cfg started
    ]
