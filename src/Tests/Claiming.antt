-- ===== src/Tests/Claiming.antt =====
-- The theorems on claiming and reaping, at concrete tasks.
use gsactions_mcp.Claim.{
  dependency_ready, claimable, insert_by_next_run, sort_by_next_run, due_tasks, claimed_by,
  query_claim_due_tasks, Notice,
}
use gsactions_mcp.Claim.Exclusive.{ReachableFleet-exclusive}
use gsactions_mcp.Claim.Race.{trigger_dependents-query_claim_due_tasks}
use gsactions_mcp.Claim.Workers.{Fleet, claims, start, next_step}
use gsactions_mcp.Common.{
  ◌≤◌, String, ◌≡◌, refl, true, none, some, [], ◌∷◌, ◌++◌, map, arith, length, get_elem?,
}
use gsactions_mcp.Common.Int.{pos}
use gsactions_mcp.Completion.{trigger_dependents}
use gsactions_mcp.Conditions.{evaluate_branch_condition}
use gsactions_mcp.Store.{Task, World, status_active, status_processing, status_completed}
use gsactions_mcp.Store.Laws.{row}
use gsactions_mcp.Store.Queries.{
  status_allowed, update_where, find_where, filter_where, exec, update_rows,
  query_update_task_next_run, query_get_dependent_tasks_to_trigger,
}
use gsactions_mcp.Tests.{example_id, new_id, env_up, example_task, world_of}
use gsactions_mcp.Uuid.{uuid_eq}

abbrev late_task : Task
late_task = record example_task { user_id = "bob" }

abbrev notice_now : Notice
notice_now = record {
  task_id = "00010203-0405-0607-0809-0a0b0c0d0e07";
  user_id = "ann";
  worker_id = "w1";
}

abbrev due_now : Task
due_now = record example_task { status = status_active; locked_by = none }

abbrev done_parent : Task
done_parent = record example_task { status = status_completed }

abbrev due_child : Task
due_child = record example_task {
  id = new_id;
  status = status_active;
  locked_by = none;
  depends_on_task_id = some example_id;
  trigger_on_completion = true;
}

abbrev parent_and_child : World
parent_and_child = record (world_of done_parent) { tasks = done_parent ∷ due_child ∷ [] }

-- The child has been claimed, and made due again.
abbrev after_race : World
after_race =
    trigger_dependents env_up "" (due_child ∷ [])
      (query_claim_due_tasks env_up 10 "w2" parent_and_child)

race_ready : (length after_race.tasks ≤ 10) × (dependency_ready after_race.tasks due_child ≡ true)
unfolding trigger_dependents query_claim_due_tasks due_tasks claimable dependency_ready
    sort_by_next_run insert_by_next_run filter_where find_where update_where uuid_eq
    evaluate_branch_condition query_update_task_next_run update_rows exec status_allowed
race_ready = (omega arith, refl)

trigger_dependents-query_claim_due_tasks_example :
    (row new_id (query_claim_due_tasks env_up 10 "w2" parent_and_child)
      ≡ some (claimed_by "w2" due_child))
    × (row new_id (query_claim_due_tasks env_up 10 "w3" after_race)
        ≡ some (claimed_by "w3" (record due_child { next_run = pos 1000 })))
unfolding query_get_dependent_tasks_to_trigger filter_where find_where uuid_eq
    evaluate_branch_condition dependency_ready
trigger_dependents-query_claim_due_tasks_example =
    trigger_dependents-query_claim_due_tasks env_up env_up env_up example_id "" "w2" "w3" 10 10
      due_child parent_and_child refl refl refl refl refl refl (omega arith) refl refl race_ready.0
      refl race_ready.1

abbrev fleet_now : Fleet
fleet_now = record {
  world = query_claim_due_tasks env_up 10 "w2" (world_of due_now);
  runs = map (λ s. (s.id, "w2")) (due_tasks env_up 10 (world_of due_now).tasks) ++ [];
}

claimed_now :
    (get_elem? fleet_now.runs 0 ≡ some (example_id, "w2"))
    × (row example_id fleet_now.world ≡ some (claimed_by "w2" due_now))
unfolding query_claim_due_tasks due_tasks claimable dependency_ready sort_by_next_run
    insert_by_next_run filter_where find_where update_where uuid_eq
claimed_now = (refl, refl)

ReachableFleet-exclusive_example :
    ◌≡◌ {A = String} "w2" "w2"
    × (status_processing ≡ (claimed_by "w2" due_now).status)
    × ((claimed_by "w2" due_now).locked_by ≡ some "w2")
ReachableFleet-exclusive_example =
    ReachableFleet-exclusive fleet_now example_id "w2" "w2" 0 0 {t = claimed_by "w2" due_now}
      (next_step (start (world_of due_now))
        (claims env_up 10 "w2" (record { world = world_of due_now; runs = [] }) refl))
      claimed_now.0 claimed_now.0 claimed_now.1
