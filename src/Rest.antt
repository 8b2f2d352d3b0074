-- ===== src/Rest.antt =====
-- cmd/server/task_rest_handlers.go, and the approvals of cmd/server/api_handlers.go: the requests that
-- change a user's tasks. A handler gives the new state and the status codes that it writes, in order:
-- the client gets the first, and the text of each is left out. Writing an answer gives no error, so a
-- handler that returns the error of its answer to a malformed id goes on. The user is the text of
-- getUserID, and a body is `none` where c.Bind fails.
pub mod Versions
pub mod Approvals
pub mod Create
pub mod Isolated
pub mod Updated
pub mod Restored
pub mod Malformed
use gsactions_mcp.Common.{
  ◌==◌, ℕ, String, Bool, true, false, ◌&&◌, ◌||◌, not, Option, none, some, List, [], ◌∷◌, ◌++◌,
  if◌then◌else◌, any,
}
use gsactions_mcp.Store.{
  World, update_task_status_by_user_id, delete_task_query, link_task_dependency, Env, status_active,
  status_paused,
}
use gsactions_mcp.Store.Queries.{
  has_id, owned, query_update_task_status_by_user_id, query_delete_task,
}
use gsactions_mcp.Tools.{write_audit_log}
use gsactions_mcp.Transfer.{query_link_task_dependency}
use gsactions_mcp.Uuid.{Uuid, parse_uuid}

abbrev pub Answered : Type 0
Answered = World × List ℕ

-- mustParseUUID of cmd/server/globals.go: the id, NULL for a malformed one, and what it writes.
unfoldable pub must_parse_uuid : String → Option Uuid × List ℕ
must_parse_uuid text = elim (parse_uuid text) [ some id ↦ (some id, []) | none ↦ (none, 400 ∷ []) ]

-- An id that may be left out: the empty text is NULL.
unfoldable pub optional_uuid : String → Option Uuid × List ℕ
optional_uuid text = if text == "" then (none, []) else must_parse_uuid text

-- A statement on the row with an id: NULL is the id of no row.
unfoldable pub on_id : Option Uuid → (Uuid → World → World) → World → World
on_id none f w = w
on_id (some id) f w = f id w

-- Is there a row for `WHERE id = ... AND user_id = ...`?
unfoldable pub has_row : Option Uuid → String → World → Bool
has_row none user w = false
has_row (some id) user w = any (owned id user) w.tasks

-- The foreign key of depends_on_task_id.
unfoldable pub reference_ok : Option Uuid → World → Bool
reference_ok none w = true
reference_ok (some parent) w = any (has_id parent) w.tasks

-- apiPauseTaskHandler and apiResumeTaskHandler
unfoldable pub set_status : Env → String → String → String → String → World → Answered
set_status env status action user text w =
    if user == ""
    then (w, 401 ∷ [])
    else (let (id, written) = must_parse_uuid text in
        if env.fails update_task_status_by_user_id then (w, written ++ (500 ∷ [])) else (
          write_audit_log user action "task" text
              (on_id id (λ i. query_update_task_status_by_user_id env status i user) w),
          written ++ (200 ∷ []),
        ))

unfoldable pub api_pause_task : Env → String → String → World → Answered
api_pause_task env = set_status env status_paused "task.pause"

unfoldable pub api_resume_task : Env → String → String → World → Answered
api_resume_task env = set_status env status_active "task.resume"

-- apiDeleteTaskHandler
unfoldable pub api_delete_task : Env → String → String → World → Answered
api_delete_task env user text w =
    if user == ""
    then (w, 401 ∷ [])
    else (let (id, written) = must_parse_uuid text in
        if env.fails delete_task_query then (w, written ++ (500 ∷ [])) else (
          write_audit_log user "task.delete" "task" text
              (on_id id (λ i. query_delete_task env i user) w),
          written ++ (200 ∷ []),
        ))

pub record LinkTaskRequest : Type 0 where
  pub depends_on_task_id : String
  pub trigger_on_completion : Bool

-- LinkTaskDependency fails, too, where it would set a row's reference to no row.
unfoldable pub link_fails : Env → Option Uuid → Option Uuid → String → World → Bool
link_fails env parent id user w =
    env.fails link_task_dependency || (has_row id user w && not (reference_ok parent w))

unfoldable pub link_parsed :
    Env
    → String
    → String
    → LinkTaskRequest
    → Option Uuid × List ℕ
    → Option Uuid × List ℕ
    → World
    → Answered
link_parsed env user text req (id, written) (parent, more) w =
    if link_fails env parent id user w then (w, written ++ more ++ (500 ∷ [])) else (
      write_audit_log user "task.link" "task" text (
          on_id id (λ i. query_link_task_dependency env parent req.trigger_on_completion i user) w),
      written ++ more ++ (200 ∷ []),
    )

-- apiLinkTaskHandler
unfoldable pub api_link_task : Env → String → String → Option LinkTaskRequest → World → Answered
api_link_task env user text body w = if user == "" then (w, 401 ∷ []) else elim body [
  | none ↦ (w, (must_parse_uuid text).1 ++ (400 ∷ []))
  | some req ↦
      link_parsed env user text req (must_parse_uuid text) (optional_uuid req.depends_on_task_id) w
]
