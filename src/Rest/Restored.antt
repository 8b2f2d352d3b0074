-- ===== src/Rest/Restored.antt =====
-- A version that an update keeps brings the task back, but for its place on the canvas.
use gsactions_mcp.Common.{
  ◌==◌, suc, String, ◌≡◌, refl, sym, ap, subst, ◌∙◌, true, false, Option, none, some, List, [], ◌∷◌,
  length, any,
}
use gsactions_mcp.Rest.{Answered, optional_uuid, reference_ok}
use gsactions_mcp.Rest.Malformed.{must_parse_uuid_good}
use gsactions_mcp.Rest.Updated.{
  any-update_where, any-find_where, kept_version, create_version_found, update_done, same_reference,
  updated_row-id,
}
use gsactions_mcp.Rest.Versions.{
  UpdateTaskRequest, version_of, updated_row, query_update_task_agent_prompt_and_policy,
  update_parsed, api_update_task, find_version, restored_row, named_version,
  query_restore_task_from_version, restore_parsed, api_restore_task_version,
}
use gsactions_mcp.Store.{
  Task, TaskVersion, World, begin_transaction, commit_transaction, create_task_version,
  restore_task_from_version, Env, Up,
}
use gsactions_mcp.Store.Laws.{row, uuid_eq_refl, find-update_where, owned_self, find_owned}
use gsactions_mcp.Store.Queries.{update_where, owned}
use gsactions_mcp.Tools.{write_audit_log}
use gsactions_mcp.Uuid.{Uuid, uuid_eq, parse_uuid}

-- The restoration of the version that is the newest of its id.
module _ (env : Env) (up : Up env) (t : Task) (vid : Uuid) where
  newest_version :
      (s : Task) (other : Uuid) (vs : List TaskVersion)
      → uuid_eq other vid ≡ false
      → find_version vid t.id (version_of other s ∷ version_of vid t ∷ vs) ≡ some (version_of vid t)
  unfolding find_version
  newest_version s other vs differs = rw (differs, uuid_eq_refl vid, uuid_eq_refl t.id) refl

  restored_tasks : List Task → List Task
  restored_tasks = update_where (owned t.id t.user_id) (restored_row (version_of vid t))

  restore_found :
      (v : World)
      → reference_ok t.depends_on_task_id v ≡ true
      → named_version (some vid) (some t.id) t.user_id v ≡ some (version_of vid t)
      → query_restore_task_from_version env (some vid) (some t.id) t.user_id v
        ≡ some (record v { tasks = restored_tasks v.tasks })
  unfolding query_restore_task_from_version restored_tasks
  restore_found v referenced named =
      rw (up restore_task_from_version, named, referenced, query_restore_task_from_version) refl

  named_found :
      (v : World)
      → any (owned t.id t.user_id) v.tasks ≡ true
      → find_version vid t.id v.versions ≡ some (version_of vid t)
      → named_version (some vid) (some t.id) t.user_id v ≡ some (version_of vid t)
  unfolding named_version
  named_found v mine found = rw (mine, found) refl

  -- The answer to the request, where the task's row is an updated one.
  restore_done :
      (req : UpdateTaskRequest) (parent : Option Uuid) (text : String) (v : World)
      (vs : List TaskVersion)
      → row t.id v ≡ some (updated_row req parent t)
      → v.versions ≡ version_of vid t ∷ vs
      → uuid_eq (env.fresh_version_id (length (version_of vid t ∷ vs))) vid ≡ false
      → reference_ok t.depends_on_task_id v ≡ true
      → ((restore_parsed env t.user_id text (some t.id, []) (some vid, []) v).1 ≡ 200 ∷ [])
        × (row t.id (restore_parsed env t.user_id text (some t.id, []) (some vid, []) v).0
            ≡ some (record t { ui_coordinates = req.ui_coordinates }))
  unfolding restore_parsed updated_row write_audit_log restored_tasks
  restore_done req parent text v vs there versions differs referenced =
      let s = updated_row req parent t in
      let snapshot = create_version_found env up s v there in
      let kept : World = record v { versions = kept_version env up s v there ∷ v.versions } in
      let found : find_version vid t.id kept.versions ≡ some (version_of vid t) =
        rw (versions) (newest_version s _ vs differs) in
      let mine =
        any-find_where (owned t.id t.user_id) v.tasks
          (find_owned t.id t.user_id v.tasks there refl) in
      let restored =
        restore_found kept (same_reference t.depends_on_task_id kept v refl referenced)
          (named_found kept mine found) in
      rw (up begin_transaction, up create_task_version, snapshot, restored, up commit_transaction)
        (
          refl,
          find-update_where t.id (owned t.id t.user_id) (restored_row (version_of vid t)) v.tasks
                (λ x. refl)
              ∙ rw (there, owned_self t) refl,
        )

module _ (env : Env) (up : Up env) (t : Task) (w : World) (here : row t.id w ≡ some t) where
  update_entered :
      (text : String) (req : UpdateTaskRequest)
      → (t.user_id == "") ≡ false
      → parse_uuid text ≡ some t.id
      → api_update_task env t.user_id text (some req) w
        ≡ update_parsed env t.user_id text req
            (some t.id, [])
            (optional_uuid req.depends_on_task_id)
            w
  unfolding api_update_task
  update_entered text req known named =
      rw (known, must_parse_uuid_good text named, up begin_transaction, api_update_task) refl

  restore_entered :
      (text version_text : String) (vid : Uuid) (v : World)
      → (t.user_id == "") ≡ false
      → parse_uuid text ≡ some t.id
      → parse_uuid version_text ≡ some vid
      → api_restore_task_version env t.user_id text version_text v
        ≡ restore_parsed env t.user_id text (some t.id, []) (some vid, []) v
  unfolding api_restore_task_version
  restore_entered text version_text vid v known named version_named =
      rw (known, must_parse_uuid_good text named, must_parse_uuid_good version_text version_named)
        refl

  -- The state after a change that was answered 200.
  changed : String → UpdateTaskRequest → Option Uuid → World
  changed text req parent = write_audit_log t.user_id "task.update" "task" text (
      query_update_task_agent_prompt_and_policy req parent t.user_id t.id
        (record w { versions = kept_version env up t w here ∷ w.versions }))

  row-changed :
      (text : String) (req : UpdateTaskRequest) (parent : Option Uuid)
      → row t.id (changed text req parent) ≡ some (updated_row req parent t)
  unfolding changed write_audit_log query_update_task_agent_prompt_and_policy
  row-changed text req parent =
      find-update_where t.id (owned t.id t.user_id) (updated_row req parent) w.tasks
        (updated_row-id req parent)
      ∙ rw (here, owned_self t) refl

  reference_ok-changed :
      (text : String) (req : UpdateTaskRequest) (parent original : Option Uuid)
      → reference_ok original w ≡ true
      → reference_ok original (changed text req parent) ≡ true
  unfolding changed write_audit_log query_update_task_agent_prompt_and_policy reference_ok
  reference_ok-changed text req parent none held = refl
  reference_ok-changed text req parent (some id) held =
      any-update_where id (owned t.id t.user_id) (updated_row req parent) w.tasks
        (updated_row-id req parent)
      ∙ held

  -- A task that was changed is brought back: where apiUpdateTaskHandler answers 200, a request for the
  -- version that it has kept is answered 200, too, and the task's row is again the row from before the
  -- change, but for ui_coordinates, which keeps what the change set. This is for calls that succeed, a row that is found first by its id, ids in the path that
  -- are spelled right, a parent, if the task had one, that is still there, and a new version id that
  -- is not that of the version before it.
  pub api_restore_task_version-api_update_task :
      (text version_text : String) (req : UpdateTaskRequest)
      → (t.user_id == "") ≡ false
      → parse_uuid text ≡ some t.id
      → parse_uuid version_text ≡ some (env.fresh_version_id (length w.versions))
      → uuid_eq
          (env.fresh_version_id (suc (length w.versions)))
          (env.fresh_version_id (length w.versions))
        ≡ false
      → reference_ok t.depends_on_task_id w ≡ true
      → (api_update_task env t.user_id text (some req) w).1 ≡ 200 ∷ []
      → ((api_restore_task_version env t.user_id text version_text
            (api_update_task env t.user_id text (some req) w).0).1
          ≡ 200 ∷ [])
        × (row t.id
              (api_restore_task_version env t.user_id text version_text
                (api_update_task env t.user_id text (some req) w).0).0
            ≡ some (record t { ui_coordinates = req.ui_coordinates }))
  unfolding changed write_audit_log query_update_task_agent_prompt_and_policy
  api_restore_task_version-api_update_task text version_text req known named version_named differs
        referenced answered =
      let parent = optional_uuid req.depends_on_task_id in
      let vid = env.fresh_version_id (length w.versions) in
      let after = changed text req parent.0 in
      let entered = update_entered text req known named in
      let answered' : (update_parsed env t.user_id text req (some t.id, []) parent w).1 ≡ 200 ∷ [] =
        subst (λ (a : Answered). a.1 ≡ 200 ∷ []) entered answered in
      let done : (api_update_task env t.user_id text (some req) w).0 ≡ after =
        ap (λ (a : Answered). a.0) entered
        ∙ update_done env up t w here text req parent answered' in
      let Brings : Answered → Type 0 = λ a.
        (a.1 ≡ 200 ∷ [])
        × (row t.id a.0 ≡ some (record t { ui_coordinates = req.ui_coordinates })) in
      let brought : Brings
          (restore_parsed env t.user_id text (some t.id, []) (some vid, []) after) =
        restore_done env up t vid req parent.0 text after w.versions (row-changed text req parent.0)
          refl differs (reference_ok-changed text req parent.0 t.depends_on_task_id referenced) in
      subst (λ (v : World). Brings (api_restore_task_version env t.user_id text version_text v))
        (sym done)
        (subst Brings (sym (restore_entered text version_text vid after known named version_named))
          brought)
