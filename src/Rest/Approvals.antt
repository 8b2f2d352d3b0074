-- ===== src/Rest/Approvals.antt =====
-- cmd/server/api_handlers.go apiApproveTaskHandler, apiDenyTaskHandler, and apiManualRouteHandler of
-- cmd/server/task_rest_handlers.go: what a person decides about a task that waits.
use gsactions_mcp.Common.{
  ◌==◌, ℕ, String, Bool, true, false, not, Option, none, some, List, [], ◌∷◌, ◌++◌, if◌then◌else◌,
}
use gsactions_mcp.Rest.{Answered, must_parse_uuid, on_id}
use gsactions_mcp.Store.{
  Task, World, update_task_next_run, update_task_approval_status,
  update_task_approval_status_and_last_run, check_task_ownership, Env, status_active, status_paused,
  status_completed, needs_routing,
}
use gsactions_mcp.Store.Queries.{
  query_update_task_next_run, query_update_task_approval_status,
  query_update_task_approval_status_and_last_run, query_get_task_by_id, query_check_task_ownership,
}
use gsactions_mcp.Tools.{write_audit_log}
use gsactions_mcp.Uuid.{Uuid, format_uuid}

unfoldable pub owned_id : Env → Option Uuid → String → World → Option Bool
owned_id env none user w = if env.fails check_task_ownership then none else some false
owned_id env (some id) user w = query_check_task_ownership env id user w

-- Both handlers, by the approval, the status and the action; without a user `none` is given.
unfoldable pub decide_approval :
    Env → String → String → String → Option String → String → World → Answered
decide_approval env approval status action none text w = (w, 401 ∷ [])
decide_approval env approval status action (some user) text w =
    let (id, written) = must_parse_uuid text in
    elim (owned_id env id user w) [
      | none ↦ (w, written ++ (500 ∷ []))
      | some false ↦ (w, written ++ (404 ∷ []))
      | some true ↦ if env.fails update_task_approval_status then (w, written ++ (500 ∷ [])) else (
        write_audit_log user action "task" text
            (on_id id (λ i. query_update_task_approval_status env approval status i user) w),
        written ++ (200 ∷ []),
      )
    ]

unfoldable pub api_approve_task : Env → Option String → String → World → Answered
api_approve_task env = decide_approval env "approved" status_active "task.approve"

unfoldable pub api_deny_task : Env → Option String → String → World → Answered
api_deny_task env = decide_approval env "denied" status_paused "task.deny"

unfoldable get_task : Env → Option Uuid → String → World → Option Task
get_task env none user w = none
get_task env (some id) user w = query_get_task_by_id env id user w

-- The target waits for the task whose id the path spells.
unfoldable waits_for : Option Uuid → String → Bool
waits_for none text = false
waits_for (some parent) text = format_uuid parent == text

-- The two updates, which are no transaction.
unfoldable route_manually : Env → String → String → Uuid → Uuid → World → Answered
route_manually env user text id target w =
    if env.fails update_task_next_run
    then (w, 500 ∷ [])
    else (let routed = query_update_task_next_run env status_active env.now target w in
        if env.fails update_task_approval_status_and_last_run then (routed, 500 ∷ []) else (
          write_audit_log user "task.manual_route" "task" text (
              query_update_task_approval_status_and_last_run env "manual_routed" status_completed id
                user routed),
          200 ∷ [],
        ))

unfoldable route_found : Env → String → String → Task → Option Task → World → Answered
route_found env user text t none w = (w, 404 ∷ [])
route_found env user text t (some target) w =
    if not (waits_for target.depends_on_task_id text)
    then (w, 400 ∷ [])
    else route_manually env user text t.id target.id w

unfoldable route_from : Env → String → String → Option Task → Option Uuid → World → Answered
route_from env user text none target w = (w, 404 ∷ [])
route_from env user text (some t) target w =
    if not (t.last_approval_status == needs_routing)
    then (w, 400 ∷ [])
    else route_found env user text t (get_task env target user w) w

abbrev behind : List ℕ → Answered → Answered
behind codes (w, more) = (w, codes ++ more)

-- apiManualRouteHandler; its body is the field target_task_id.
unfoldable api_manual_route : Env → String → String → Option String → World → Answered
api_manual_route env user text body w =
    if user == ""
    then (w, 401 ∷ [])
    else (let (id, written) = must_parse_uuid text in
        elim body [
          | none ↦ (w, written ++ (400 ∷ []))
          | some target_text ↦
              let (target, more) = must_parse_uuid target_text in
              behind (written ++ more) (route_from env user text (get_task env id user w) target w)
        ])
