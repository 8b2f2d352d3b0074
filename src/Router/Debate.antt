-- ===== src/Router/Debate.antt =====
-- cmd/server/scheduler.go executeDecisionRouter: three personas criticise, and a judge chooses.
use gsactions_mcp.Answer.{Client, extract_raw_text, parse_llm_choice}
use gsactions_mcp.Common.{
  ◌==◌, ℕ, String, ◌<>◌, ◌⊎◌, inl, inr, Option, none, some, List, [], ◌∷◌, map, if◌then◌else◌,
  get_elem?,
}
use gsactions_mcp.Dispatch.{trace_error, trace_output, trace_input}
use gsactions_mcp.Json.{Json}
use gsactions_mcp.Privacy.{mask_sensitive_data}
use gsactions_mcp.Router.{choose_dependent, finish_route, halt_route, options_text, concat_texts}
use gsactions_mcp.Store.{Task, World, Env}
use gsactions_mcp.Store.Queries.{query_get_dependent_tasks}

personas : List String
personas =
    "Architect (Logic): You focus on structural integrity, technical consistency, and ensuring the output follows a logical flow. Critique the output against the available branches."
    ∷ "Security Officer (Safety): You scan for high-risk outcomes, malicious intent, or potential safety violations. Critique the output from a risk perspective."
    ∷ "User Advocate (Intent): You prioritize the end-user's goal and helpfulness. Critique whether the output truly serves the user's original request."
    ∷ []

-- One persona's part of the transcript; one whose request fails has none.
critique : Client → String → String → ℕ → String
unfolding personas
critique client prev_output options n = elim (get_elem? personas n) [
  | none ↦ ""
  | some persona ↦
      elim (client.request_sampling n (
        persona
        <> ("\n\nTask Input: "
            <> (prev_output <> ("\nOptions:\n" <> (options <> "\n\nProvide your critique.")))))) [
              | inr error ↦ ""
              | inl res ↦ "### " <> (persona <> ("\n" <> (extract_raw_text res <> "\n\n")))
            ]
]

judge_prompt : String → String → String → String
judge_prompt transcript options prev_output =
    "You are the Executive Judge. You have received the following critiques from three specialists regarding a workflow decision.\nCritiques:\n"
    <> (transcript
        <> ("\n\nOptions:\n"
            <> (options
                <> ("\n\nFinal Task Output to Evaluate:\n"
                    <> (prev_output
                        <> "\n\nSynthesize the views and pick the final branch. Respond ONLY with JSON: {\"choice\": \"branch_key\", \"reasoning\": \"...\"}")))))

-- The judge's answer to the debate.
unfoldable pub debate : Client → String → List Task → Option Json ⊎ String
unfolding critique concat_texts judge_prompt
debate client prev_output dependents =
    let options = options_text "" dependents in
    let transcript =
      concat_texts (map (critique client prev_output options) (client.finishing 3)) in
    client.request_sampling 3 (judge_prompt transcript options prev_output)

-- The world after the judge's choice.
unfoldable pub conclude_debate : Env → Task → List Task → String → World → World
conclude_debate env t dependents choice w =
    if choice == ""
    then trace_error env t "Decision Router No Choice" "LLM did not provide a valid choice JSON"
        (halt_route env t w)
    else finish_route env t (choose_dependent choice dependents)
        (trace_output env t "Swarm Debate Conclusion" ("Choice: " <> choice) w)

unfoldable pub decide : Env → Client → Task → List Task → Option Json ⊎ String → World → World
decide env client t dependents (inr error) w =
    trace_error env t "Decision Router LLM Failed" error (halt_route env t w)
decide env client t dependents (inl res) w =
    conclude_debate env t dependents (parse_llm_choice client.parse_json res) w

-- executeDecisionRouter
unfoldable pub execute_decision_router : Env → Client → Task → String → World → World
execute_decision_router env client t prev_output w =
    let started =
      trace_input env t "Decision Router Start" (mask_sensitive_data env prev_output) w in
    elim (query_get_dependent_tasks env t.id started) [
      | none ↦ started
      | some dependents ↦
          decide env client t dependents (debate client prev_output dependents) started
    ]
