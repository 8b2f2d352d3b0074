-- ===== src/Router.antt =====
-- cmd/server/scheduler.go executeDecisionRouter, executeSwarmRouter: a language model picks one of the
-- tasks that wait for the router. Goroutines are taken in the order in which they end. The metadata of
-- the traces is left out, as are the deadlines of requests.
pub mod Config
pub mod Debate
pub mod Council
pub mod Effects
pub mod Refinement
use mathlib.Core.Option
use gsactions_mcp.Common.{◌==◌, String, ◌<>◌, Option, none, some, List, [], ◌∷◌, if◌then◌else◌}
use gsactions_mcp.Json.{text_or_empty, unmarshal_string_map, get_text?}
use gsactions_mcp.Store.{
  Task, World, Env, status_active, status_completed, status_halted, needs_routing,
}
use gsactions_mcp.Store.Queries.{
  query_update_task_next_run, query_update_task_approval_status,
  query_update_task_approval_status_and_last_run, query_update_task_status_and_last_run,
}

-- cond["key"] of a dependent's branch condition, where that decodes; `none` otherwise.
unfoldable pub branch_key : Task → Option (Option String)
branch_key t = Option.map (get_text? "key") (unmarshal_string_map t.branch_condition)

-- The first dependent with this key: a missing key reads as the empty text.
unfoldable pub choose_dependent : String → List Task → Option Task
choose_dependent choice [] = none
choose_dependent choice (t ∷ ts) = elim (branch_key t) [
  | none ↦ choose_dependent choice ts
  | some key ↦
      let rest = choose_dependent choice ts in if text_or_empty key == choice then some t else rest
]

-- The end of both routers: the chosen task is due now and the router completed; without one the
-- router is halted and waits for a person.
unfoldable pub finish_route : Env → Task → Option Task → World → World
finish_route env t none w =
    query_update_task_approval_status_and_last_run env needs_routing status_halted t.id t.user_id w
finish_route env t (some d) w =
    query_update_task_status_and_last_run env status_completed t.id t.user_id
      (query_update_task_next_run env status_active env.now d.id w)

unfoldable pub halt_route : Env → Task → World → World
halt_route env t = query_update_task_approval_status env needs_routing status_halted t.id t.user_id

option_line : Option (Option String) → String → String
option_line (some (some key)) missing = "- " <> (key <> "\n")
option_line (some none) missing = missing
option_line none missing = ""

-- optionsStr; `missing` is the line of a condition without a key.
unfoldable pub options_text : String → List Task → String
unfolding option_line
options_text missing [] = ""
options_text missing (t ∷ ts) = option_line (branch_key t) missing <> options_text missing ts

unfoldable pub concat_texts : List String → String
concat_texts [] = ""
concat_texts (s ∷ ss) = s <> concat_texts ss
