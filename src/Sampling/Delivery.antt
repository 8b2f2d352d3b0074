-- ===== src/Sampling/Delivery.antt =====
-- The messages that the dispatcher sends, and the handler that they reach.
use Prim.Native.String.append
use Prim.Native.String.compare
use gsactions_mcp.Answer.{Client}
use gsactions_mcp.Common.{
  ◌==◌, eq_iff, String, ◌<>◌, ◌≡◌, refl, sym, ap, ◌∙◌, ◌⊎◌, inl, inr, Bool, true, false, ◌&&◌, not,
  Option, none, some, arith, if◌then◌else◌, Bool-cases, Option-cases, is_none,
}
use gsactions_mcp.Dispatch.{show_int, execution_id_of}
use gsactions_mcp.Dispatch.Branches.{message_prompt, task_message}
use gsactions_mcp.Json.{Fields}
use gsactions_mcp.Prompt.{Vault}
use gsactions_mcp.Sampling.{run_prompt, is_router, run_router, is_complete, handle_trigger}
use gsactions_mcp.Store.{Task, World, get_task_by_id, Env}
use gsactions_mcp.Store.Queries.{owned, find_where, query_get_task_by_id}
use gsactions_mcp.Uuid.{Uuid, dash, strip_dashes, format_uuid, parse_uuid}
use gsactions_mcp.Uuid.RoundTrip.{IsUuid, parse_uuid-format_uuid}

dash_not_empty : (s t : String) → ((s <> ("-" <> t)) == "") ≡ false
dash_not_empty String.[] t =
    rw (append.nil ("-" <> t), append.cons dash "" t, compare.cons-nil dash ("" <> t)) refl
dash_not_empty (String.◌∷◌ c s) t =
    rw (append.cons c s ("-" <> t), compare.cons-nil c (s <> ("-" <> t))) refl

execution_id_of-nonempty : (env : Env) (t : Task) → (execution_id_of env t == "") ≡ false
unfolding execution_id_of
execution_id_of-nonempty env t = dash_not_empty (format_uuid t.id) (show_int env.now)

parse_empty : parse_uuid "" ≡ none
unfolding parse_uuid strip_dashes
parse_empty = refl

format_uuid-nonempty : (id : Uuid) → IsUuid id → (format_uuid id == "") ≡ false
format_uuid-nonempty id valid =
    ground (
      arith,
      eq_iff (format_uuid id) "",
      ap parse_uuid,
      parse_empty,
      parse_uuid-format_uuid id valid,
    )

module _ (env : Env) (t : Task) (payload : Option Fields) (w : World) where
  -- Every field but these is there in a message of the dispatcher.
  is_complete-task_message :
      IsUuid t.id
      → is_complete (task_message env t payload w) ≡ (
          not (message_prompt env t payload w == "")
          && not (t.trigger_type == "")
          && not (is_none t.trigger_config))
  unfolding is_complete task_message
  is_complete-task_message valid =
      rw (format_uuid-nonempty t.id valid, execution_id_of-nonempty env t) (ground arith)

  message_id : IsUuid t.id → parse_uuid (task_message env t payload w).task_id ≡ some t.id
  unfolding task_message
  message_id valid = parse_uuid-format_uuid t.id valid

  -- Has a message of the dispatcher a prompt and a trigger?
  abbrev pub is_sound : Bool
  is_sound =
      not (message_prompt env t payload w == "")
      && not (t.trigger_type == "")
      && not (is_none t.trigger_config)

  -- A connection that gets the dispatcher's message drops it, and changes nothing, if the resolved
  -- prompt is empty, the task has no trigger, the task cannot be read, or the user's row with the
  -- task's id is gone. In all other cases it runs that very row, whatever its status is by then: as a
  -- router, or as a prompt with the message. This is for a task with an id of 16 bytes.
  pub handle_trigger-task_message :
      (there : Env) (client : Client) (vault : Vault) (v : World)
      → IsUuid t.id
      → (((is_sound ≡ false)
            ⊎ ((there.fails get_task_by_id ≡ true)
                ⊎ (find_where (owned t.id t.user_id) v.tasks ≡ none)))
          × (handle_trigger there client vault t.user_id (task_message env t payload w) v ≡ v))
        ⊎ ((s : Task) × (is_sound ≡ true)
            × (there.fails get_task_by_id ≡ false)
            × (find_where (owned t.id t.user_id) v.tasks ≡ some s)
            × (handle_trigger there client vault t.user_id (task_message env t payload w) v ≡ (
                if is_router s
                then run_router there client s v
                else run_prompt there client vault s (task_message env t payload w) v)))
  unfolding handle_trigger query_get_task_by_id
  handle_trigger-task_message there client vault v valid =
      elim (Bool-cases (is_complete (task_message env t payload w))) [
        | inr incomplete ↦
            inl (inl (sym (is_complete-task_message valid) ∙ incomplete), rw incomplete refl)
        | inl complete ↦
            let sound = sym (is_complete-task_message valid) ∙ complete in
            elim (Bool-cases (there.fails get_task_by_id)) [
              | inl down ↦
                  inl (inr (inl down), rw (complete, handle_trigger, message_id valid, down) refl)
              | inr up ↦ elim (Option-cases (find_where (owned t.id t.user_id) v.tasks)) [
                | inl gone ↦ inl (
                  inr (inr gone),
                  rw (complete, handle_trigger, message_id valid) (rw (up, gone) refl),
                )
                | inr (s, still) ↦ inr (
                  s,
                  sound,
                  up,
                  still,
                  rw (complete, handle_trigger, message_id valid) (rw (up, still) refl),
                )
              ]
            ]
      ]
