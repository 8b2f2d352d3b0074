-- ===== src/Transfer/Exported.antt =====
-- What is left of tasks that are exported and imported again.
use gsactions_mcp.Common.{String, ◌≡◌, ◌⊎◌, inl, inr, none, List, [], ◌∷◌}
use gsactions_mcp.Common.Int.{pos}
use gsactions_mcp.Store.{Task, World, Env, status_active}
use gsactions_mcp.Transfer.{ImportError, Created, or_else}

-- A new task of the user has what the other one says it does, and starts afresh: it is active, has
-- failed never, and has neither the condition of a loop nor retries.
pub record IsCopy (user : String) (t copy : Task) : Type 0 where
  pub owner : copy.user_id ≡ user
  pub name : copy.name ≡ t.name
  pub trigger_type : copy.trigger_type ≡ t.trigger_type
  pub trigger_config : copy.trigger_config ≡ t.trigger_config
  pub agent_prompt : copy.agent_prompt ≡ t.agent_prompt
  pub missed : copy.missed_task_policy ≡ or_else "run_immediately" t.missed_task_policy
  pub requires_approval : copy.requires_approval ≡ t.requires_approval
  pub on_completion : copy.trigger_on_completion ≡ t.trigger_on_completion
  pub task_type : copy.task_type ≡ or_else "mcp_sampling" t.task_type
  pub native_code : copy.native_code ≡ t.native_code
  pub branch : copy.branch_condition ≡ t.branch_condition
  pub swarm : copy.swarm_config ≡ t.swarm_config
  pub active : copy.status ≡ status_active
  pub no_failure : copy.failure_count ≡ pos 0
  pub no_parent : copy.depends_on_task_id ≡ none
  pub no_loop : copy.loop_condition ≡ none
  pub no_retry : copy.max_retries ≡ pos 0

-- The rows after are those before, with a copy of each task in front, the last one first.
abbrev Copies : String → List Task → List Task → List Task → Type 0
Copies user [] after before = after ≡ before
Copies user (t ∷ ts) after before =
    (copy : Task) × IsCopy user t copy × Copies user ts after (copy ∷ before)

abbrev IsRoot : Task → Type 0
IsRoot t = t.depends_on_task_id ≡ none

module _ (env : Env) (user : String) where
  -- The new world of one step is the old one with a copy in front.
  abbrev OneCopy : Task → World → World × (ImportError ⊎ Created) → Type 0
  OneCopy t w (v, inl e) = Unit
  OneCopy t w (v, inr created) = (copy : Task) × IsCopy user t copy × (v.tasks ≡ copy ∷ w.tasks)
