-- ===== src/Tests/Answering.antt =====
-- The theorems on routers and sampling, at a client that always answers the same.
use gsactions_mcp.Answer.{Client}
use gsactions_mcp.Common.{◌≡◌, refl, ◌⊎◌, inl, inr, true, false, none, some, [], ◌∷◌, if◌then◌else◌}
use gsactions_mcp.Common.Int.{pos, ◌+ℤ◌}
use gsactions_mcp.Dispatch.{trace_input}
use gsactions_mcp.Dispatch.Branches.{task_message}
use gsactions_mcp.Json.{object, end}
use gsactions_mcp.Privacy.{mask_sensitive_data}
use gsactions_mcp.Router.Council.{execute_swarm_router}
use gsactions_mcp.Router.Debate.{execute_decision_router}
use gsactions_mcp.Router.Effects.{RouteStep}
use gsactions_mcp.Router.Refinement.{Judged, Agreed, routers-RouteStep}
use gsactions_mcp.Sampling.{sampling_failed, run_prompt, is_router, run_router, handle_trigger}
use gsactions_mcp.Sampling.Delivery.{is_sound, handle_trigger-task_message}
use gsactions_mcp.Sampling.Failures.{once_more, row-sampling_failed}
use gsactions_mcp.Sampling.Locks.{OnlyTraces, Connection, run_again}
use gsactions_mcp.Sampling.Once.{run_again_once}
use gsactions_mcp.Sampling.Writes.{is_held}
use gsactions_mcp.Store.{Task, TriggerMessage, status_error}
use gsactions_mcp.Store.Laws.{row}
use gsactions_mcp.Store.Queries.{owned, find_where}
use gsactions_mcp.Tests.{example_id, env_up, up_now, example_task, world_of}
use gsactions_mcp.Tests.Parsing.{example_id-IsUuid, empty_vault}
use gsactions_mcp.Uuid.{uuid_eq}

abbrev example_client : Client
example_client = record {
  request_sampling = λ n p. inl (some (object end));
  parse_json = λ s. none;
  finishing = λ n. [];
  range = λ m. m;
}

abbrev broken_client : Client
broken_client = record example_client { request_sampling = λ n p. inr "no answer" }

abbrev router : Task
router = record example_task { task_type = "decision_router" }

routers-RouteStep_example :
    RouteStep env_up router
      (Judged example_client router "" (router ∷ []))
      (router ∷ [])
      (execute_decision_router env_up example_client router "" (world_of router)).tasks
    × RouteStep env_up router
        (Agreed env_up example_client router "" (
          trace_input env_up router "Swarm Router Start"
            (mask_sensitive_data env_up "")
            (world_of router)))
        (router ∷ [])
        (execute_swarm_router env_up example_client router "" (world_of router)).tasks
routers-RouteStep_example =
    routers-RouteStep env_up up_now example_client router "" (world_of router)

abbrev second_failure : Task
second_failure = record example_task { failure_count = pos 2; max_retries = pos 10 }

row-sampling_failed_example :
    (row example_id
        (sampling_failed env_up second_failure "e1" false "no answer" (world_of second_failure))
      ≡ some (once_more second_failure))
    × ((sampling_failed env_up second_failure "e1" false "no answer" (world_of second_failure)).dlq
        ≡ [])
unfolding find_where uuid_eq ◌+ℤ◌
row-sampling_failed_example =
    row-sampling_failed env_up up_now second_failure "e1" "no answer" false
      (world_of second_failure) refl refl

-- The third failure is the last one.
third_failure : (once_more second_failure).status ≡ status_error
unfolding ◌+ℤ◌
third_failure = refl

abbrev example_message : TriggerMessage
example_message = record {
  user_id = "ann";
  task_id = "00010203-0405-0607-0809-0a0b0c0d0e07";
  prompt = "hello";
  execution_id = "e1";
  trigger_type = "date";
  trigger_config = some (object end);
  trigger_payload = none;
}

abbrev first_terminal : Connection
first_terminal = record {
  env = env_up;
  client = example_client;
  vault = empty_vault;
  task = example_task;
}

abbrev second_terminal : Connection
second_terminal = record first_terminal {
  env = record env_up { now = pos 2000 };
  client = broken_client;
}

run_again_once_example :
    OnlyTraces
      (run_prompt env_up example_client empty_vault example_task example_message
        (world_of example_task))
      (run_again example_message (second_terminal ∷ []) (
        run_prompt env_up example_client empty_vault example_task example_message
          (world_of example_task)))
unfolding is_held ◌+ℤ◌
run_again_once_example =
    run_again_once first_terminal example_message (world_of example_task) (second_terminal ∷ [])
      refl refl (refl, tt)

abbrev sent_message : TriggerMessage
sent_message = task_message env_up example_task none (world_of example_task)

handle_trigger-task_message_example :
    (((is_sound env_up example_task none (world_of example_task) ≡ false)
        ⊎ ((false ≡ true)
            ⊎ (find_where (owned example_id "ann") (world_of example_task).tasks ≡ none)))
      × (handle_trigger env_up example_client empty_vault "ann" sent_message (world_of example_task)
          ≡ world_of example_task))
    ⊎ ((s : Task) × (is_sound env_up example_task none (world_of example_task) ≡ true)
        × (false ≡ false)
        × (find_where (owned example_id "ann") (world_of example_task).tasks ≡ some s)
        × (handle_trigger env_up example_client empty_vault "ann" sent_message
              (world_of example_task)
            ≡ (if is_router s
                then run_router env_up example_client s (world_of example_task)
                else run_prompt env_up example_client empty_vault s sent_message
                    (world_of example_task))))
handle_trigger-task_message_example =
    handle_trigger-task_message env_up example_task none (world_of example_task) env_up
      example_client empty_vault (world_of example_task) example_id-IsUuid
