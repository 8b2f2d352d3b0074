-- ===== src/Dispatch/Laws.antt =====
-- What dispatching a task does, on each of its branches.
use gsactions_mcp.Common.{
  ◌==◌, String, ◌≡◌, ◌⊎◌, inl, inr, Bool, ◌&&◌, not, Option, none, some, ◌∷◌, arith, if◌then◌else◌,
  Bool-cases, Option-cases, Sum-cases, is_none,
}
use gsactions_mcp.Dispatch.{observe_task_outcome, publish_event, trace_input}
use gsactions_mcp.Dispatch.Branches.{
  needs_approval, pause_for_approval, advance_or_pause, miss_task, native_failed, native_traced,
  loops_again, native_succeeded, native_input, run_native, delivery_error, delivery_failed,
  delivered, task_message, deliver, handle_dispatch_task,
}
use gsactions_mcp.Dispatch.Outcomes.{outcomes_kept}
use gsactions_mcp.Dispatch.Triggers.{triggers_kept}
use gsactions_mcp.Json.{Fields, unmarshal_map}
use gsactions_mcp.Schedule.{calculate_next_run}
use gsactions_mcp.Store.{Task, World, Env}

module _ (env : Env) (t : Task) (w : World) where
  triggers-advance_or_pause : (advance_or_pause env t w).triggers ≡ w.triggers
  unfolding advance_or_pause
  triggers-advance_or_pause = elim (Option-cases (unmarshal_map t.trigger_config)) [
    | inl e ↦ rw (e, advance_or_pause) (simp triggers_kept)
    | inr (config, e) ↦
        rw (e, advance_or_pause)
          (elim (Option-cases (calculate_next_run env t.trigger_type config env.now)) [
            | inl n ↦ rw n (simp triggers_kept)
            | inr (next, n) ↦ rw n (simp triggers_kept)
          ])
  ]

  outcomes-advance_or_pause : (advance_or_pause env t w).outcomes ≡ w.outcomes
  unfolding advance_or_pause
  outcomes-advance_or_pause = elim (Option-cases (unmarshal_map t.trigger_config)) [
    | inl e ↦ rw (e, advance_or_pause) (simp outcomes_kept)
    | inr (config, e) ↦
        rw (e, advance_or_pause)
          (elim (Option-cases (calculate_next_run env t.trigger_type config env.now)) [
            | inl n ↦ rw n (simp outcomes_kept)
            | inr (next, n) ↦ rw n (simp outcomes_kept)
          ])
  ]

module _ (env : Env) (t : Task) where
  triggers-pause_for_approval : (w : World) → (pause_for_approval env t w).triggers ≡ w.triggers
  unfolding pause_for_approval publish_event observe_task_outcome
  triggers-pause_for_approval w = simp triggers_kept

  pub triggers-miss_task : (w : World) → (miss_task env t w).triggers ≡ w.triggers
  unfolding miss_task observe_task_outcome
  triggers-miss_task w = elim (Bool-cases (t.missed_task_policy == "run_immediately")) [
    | inl e ↦ rw e (simp triggers_kept)
    | inr e ↦ rw e (simp (triggers-advance_or_pause, triggers_kept))
  ]

  triggers-native_failed :
      (message : String) (w : World) → (native_failed env t message w).triggers ≡ w.triggers
  unfolding native_failed observe_task_outcome
  triggers-native_failed message w = simp triggers_kept

  triggers-native_succeeded :
      (result : String) (w : World) → (native_succeeded env t result w).triggers ≡ w.triggers
  unfolding native_succeeded observe_task_outcome
  triggers-native_succeeded result w =
      elim (Bool-cases (loops_again env t (native_traced env t result w))) [
        | inl e ↦ rw e (simp triggers_kept)
        | inr e ↦ rw e (simp (triggers-advance_or_pause, triggers_kept))
      ]

  triggers-delivery_failed :
      (message : String) (w : World) → (delivery_failed env t message w).triggers ≡ w.triggers
  unfolding delivery_failed observe_task_outcome
  triggers-delivery_failed message w = simp triggers_kept

  outcomes-pause_for_approval :
      (w : World) → (pause_for_approval env t w).outcomes ≡ "approval_required" ∷ w.outcomes
  unfolding pause_for_approval publish_event observe_task_outcome
  outcomes-pause_for_approval w = simp outcomes_kept

  pub outcomes-miss_task : (w : World) → (miss_task env t w).outcomes ≡ "missed" ∷ w.outcomes
  unfolding miss_task observe_task_outcome
  outcomes-miss_task w = elim (Bool-cases (t.missed_task_policy == "run_immediately")) [
    | inl e ↦ rw e (simp outcomes_kept)
    | inr e ↦ rw e (simp (outcomes-advance_or_pause, outcomes_kept))
  ]

  outcomes-native_failed :
      (message : String) (w : World)
      → (native_failed env t message w).outcomes ≡ "execution_failure" ∷ w.outcomes
  unfolding native_failed observe_task_outcome
  outcomes-native_failed message w = simp outcomes_kept

  outcomes-native_succeeded :
      (result : String) (w : World)
      → (native_succeeded env t result w).outcomes ≡ "success" ∷ w.outcomes
  unfolding native_succeeded observe_task_outcome
  outcomes-native_succeeded result w =
      elim (Bool-cases (loops_again env t (native_traced env t result w))) [
        | inl e ↦ rw e (simp outcomes_kept)
        | inr e ↦ rw e (simp (outcomes-advance_or_pause, outcomes_kept))
      ]

  outcomes-delivery_failed :
      (message : String) (w : World)
      → (delivery_failed env t message w).outcomes ≡ "delivery_failure" ∷ w.outcomes
  unfolding delivery_failed observe_task_outcome
  outcomes-delivery_failed message w = simp outcomes_kept

-- The outcome that a dispatch counts, by what it is given alone.
abbrev native_outcome : String ⊎ String → String
native_outcome (inl result) = "success"
native_outcome (inr message) = "execution_failure"

abbrev delivery_outcome : Option String → String
delivery_outcome none = "delivered"
delivery_outcome (some message) = "delivery_failure"

unfoldable expected_outcome : Env → Task → Option Fields → String
expected_outcome env t payload =
    if needs_approval t
    then "approval_required"
    else if not (env.is_online t.user_id)
    then "missed"
    else if t.task_type == "native_action"
    then native_outcome (env.execute_native_js t.native_code payload)
    else delivery_outcome (delivery_error (env.publish t.user_id))

-- Whether a dispatch gets as far as a delivery that some node took.
abbrev reaches_node : Env → Task → Bool
reaches_node env t =
    not (needs_approval t)
    && env.is_online t.user_id
    && not (t.task_type == "native_action")
    && is_none (delivery_error (env.publish t.user_id))

module _ (env : Env) (t : Task) (payload : Option Fields) (w : World) where
  abbrev started_native : World
  started_native = trace_input env t "Native Execution Started" (native_input env t payload) w

  run_native-inl :
      (result : String)
      → env.execute_native_js t.native_code payload ≡ inl result
      → run_native env t payload w ≡ native_succeeded env t result started_native
  unfolding run_native
  run_native-inl result e = rw (e, run_native)

  run_native-inr :
      (message : String)
      → env.execute_native_js t.native_code payload ≡ inr message
      → run_native env t payload w ≡ native_failed env t message started_native
  unfolding run_native
  run_native-inr message e = rw (e, run_native)

  triggers-run_native : (run_native env t payload w).triggers ≡ w.triggers
  triggers-run_native = elim (Sum-cases (env.execute_native_js t.native_code payload)) [
    | inl (result, e) ↦
        rw (run_native-inl result e) (simp (triggers-native_succeeded, triggers_kept))
    | inr (message, e) ↦
        rw (run_native-inr message e) (simp (triggers-native_failed, triggers_kept))
  ]

  outcomes-run_native :
      (run_native env t payload w).outcomes
      ≡ native_outcome (env.execute_native_js t.native_code payload) ∷ w.outcomes
  outcomes-run_native = elim (Sum-cases (env.execute_native_js t.native_code payload)) [
    | inl (result, e) ↦
        rw (run_native-inl result e, e) (simp (outcomes-native_succeeded, outcomes_kept))
    | inr (message, e) ↦
        rw (run_native-inr message e, e) (simp (outcomes-native_failed, outcomes_kept))
  ]

  outcomes-deliver :
      (deliver env t payload w).outcomes
      ≡ delivery_outcome (delivery_error (env.publish t.user_id)) ∷ w.outcomes
  unfolding deliver delivered observe_task_outcome
  outcomes-deliver = elim (Option-cases (delivery_error (env.publish t.user_id))) [
    | inl e ↦ rw (e, deliver) (simp outcomes_kept)
    | inr (message, e) ↦ rw (e, deliver) (simp (outcomes-delivery_failed, outcomes_kept))
  ]

  triggers-deliver : (deliver env t payload w).triggers ≡ (
      if is_none (delivery_error (env.publish t.user_id))
      then task_message env t payload w ∷ w.triggers
      else w.triggers)
  unfolding deliver delivered observe_task_outcome
  triggers-deliver = elim (Option-cases (delivery_error (env.publish t.user_id))) [
    | inl e ↦ rw (e, deliver) (simp triggers_kept)
    | inr (message, e) ↦ rw (e, deliver) (simp (triggers-delivery_failed, triggers_kept))
  ]

  -- Each dispatch counts exactly one outcome, whatever calls fail: which one is settled by the
  -- approval, by whether the user is on line, and by the result of the code or of the delivery.
  handle_dispatch_task_counts :
      (handle_dispatch_task env t payload w).outcomes ≡ expected_outcome env t payload ∷ w.outcomes
  unfolding handle_dispatch_task expected_outcome
  handle_dispatch_task_counts = ground (
    arith,
    outcomes-pause_for_approval env t w,
    outcomes-miss_task env t w,
    outcomes-run_native,
    outcomes-deliver,
  )

  -- Whatever calls fail, a message for a node is sent exactly when the task has the approval it
  -- needs and is no native action, its user is on line, and some node took it. It is then one
  -- message: that task's, with its prompt resolved. In every other case none is sent.
  pub handle_dispatch_task_sends :
      (handle_dispatch_task env t payload w).triggers
      ≡ (if reaches_node env t then task_message env t payload w ∷ w.triggers else w.triggers)
  unfolding handle_dispatch_task
  handle_dispatch_task_sends = ground (
    arith,
    triggers-pause_for_approval env t w,
    triggers-miss_task env t w,
    triggers-run_native,
    triggers-deliver,
  )
