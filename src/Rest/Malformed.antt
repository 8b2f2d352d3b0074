-- ===== src/Rest/Malformed.antt =====
-- What a handler does after it has refused a malformed id.
use gsactions_mcp.Common.{◌==◌, String, ◌≡◌, refl, ◌∙◌, false, none, some, [], ◌∷◌, arith}
use gsactions_mcp.Rest.{
  must_parse_uuid, optional_uuid, on_id, reference_ok, LinkTaskRequest, link_fails, link_parsed,
  api_link_task,
}
use gsactions_mcp.Store.{Task, World, link_task_dependency, Env, Up}
use gsactions_mcp.Store.Laws.{row, find-update_where, owned_self}
use gsactions_mcp.Store.Queries.{owned}
use gsactions_mcp.Tools.{write_audit_log}
use gsactions_mcp.Transfer.{query_link_task_dependency}
use gsactions_mcp.Uuid.{Uuid, parse_uuid}

pub must_parse_uuid_good :
    (text : String) {id : Uuid} → parse_uuid text ≡ some id → must_parse_uuid text ≡ (some id, [])
unfolding must_parse_uuid
must_parse_uuid_good text named = rw (named, must_parse_uuid) refl

optional_uuid_bad :
    (text : String)
    → (text == "") ≡ false
    → parse_uuid text ≡ none
    → optional_uuid text ≡ (none, 400 ∷ [])
unfolding optional_uuid must_parse_uuid
optional_uuid_bad text given malformed = rw (given, malformed, must_parse_uuid) refl

module _ (env : Env) (up : Up env) (t : Task) (text : String) (w : World)
    (here : row t.id w ≡ some t) (named : parse_uuid text ≡ some t.id)
    (known : (t.user_id == "") ≡ false) where
  link_free : link_fails env none (some t.id) t.user_id w ≡ false
  unfolding link_fails reference_ok
  link_free = ground (arith, up link_task_dependency)

  -- A request that links a task to a parent, and spells the parent's id wrongly, is refused with 400,
  -- but it goes on: the task's dependency is removed, and its flag is set as the request says. This is
  -- for calls that succeed, a row that is found first by its id, and a user with an id.
  pub api_link_task_malformed :
      (req : LinkTaskRequest)
      → (req.depends_on_task_id == "") ≡ false
      → parse_uuid req.depends_on_task_id ≡ none
      → ((api_link_task env t.user_id text (some req) w).1 ≡ 400 ∷ 200 ∷ [])
        × (row t.id (api_link_task env t.user_id text (some req) w).0
            ≡ some (record t {
              depends_on_task_id = none;
              trigger_on_completion = req.trigger_on_completion;
            }))
  unfolding api_link_task link_parsed on_id write_audit_log query_link_task_dependency
  api_link_task_malformed req given malformed =
      let mine = must_parse_uuid_good text named in
      let parents = optional_uuid_bad req.depends_on_task_id given malformed in
      rw (known, mine, parents, link_free)
        (
          refl,
          find-update_where t.id (owned t.id t.user_id) _ w.tasks (λ s. refl)
              ∙ rw (here, owned_self t) refl,
        )
