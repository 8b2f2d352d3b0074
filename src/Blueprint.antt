-- ===== src/Blueprint.antt =====
-- cmd/server/template_handlers.go apiDeployBlueprintHandler: the tasks of a template become tasks of
-- the user, in one transaction. As in Rest, a handler gives the status codes that it writes.
pub mod Laws
use gsactions_mcp.Common.{
  ◌==◌, ℕ, zero, suc, ◌-◌, String, ◌<>◌, Bool, ◌||◌, not, Option, none, some, List, [], ◌∷◌, ◌++◌,
  if◌then◌else◌, is_none, length, to_chars, from_chars,
}
use gsactions_mcp.Common.Int.{pos, ◌+ℤ◌}
use gsactions_mcp.Rest.{Answered}
use gsactions_mcp.Store.{
  BlueprintTask, Template, World, begin_transaction, commit_transaction, get_template_by_id_raw,
  increment_template_uses, Env,
}
use gsactions_mcp.Template.{Chars, strip_prefix}
use gsactions_mcp.Tools.Create.{CreateTaskParams, query_create_task}
use gsactions_mcp.Uuid.{Uuid, uuid_eq, parse_uuid}

-- strings.ReplaceAll of a text that is not empty; `skip` counts what is left of the last match.
unfoldable pub replace_from : Chars → Chars → ℕ → Chars → Chars
replace_from old new skip [] = []
replace_from old new (suc skip) (c ∷ s) = replace_from old new skip s
replace_from old new zero (c ∷ s) =
    if is_none (strip_prefix old (c ∷ s))
    then c ∷ replace_from old new zero s
    else new ++ replace_from old new (length old - 1) s

unfoldable pub replace_text : String → String → String → String
unfolding replace_from
replace_text s old new = from_chars (replace_from (to_chars old) (to_chars new) zero (to_chars s))

-- The variables in the order in which `range` takes them.
unfoldable pub fill_variables : List (String × String) → String → String
unfolding replace_text
fill_variables [] prompt = prompt
fill_variables ((k, v) ∷ vars) prompt =
    fill_variables vars (replace_text prompt ("{{" <> (k <> "}}")) v)

-- idMap, the latest assignment first
abbrev pub IdMap : Type 0
IdMap = List (String × Uuid)

unfoldable pub mapped_id : String → IdMap → Option Uuid
mapped_id key [] = none
mapped_id key ((k, id) ∷ ids) = if k == key then some id else mapped_id key ids

abbrev default_to : String → String → String
default_to d s = if s == "" then d else s

unfoldable pub blueprint_params :
    Env → String → List (String × String) → IdMap → BlueprintTask → CreateTaskParams
blueprint_params env user vars ids bt = record {
  user_id = user;
  name = bt.name;
  trigger_type = bt.trigger_type;
  trigger_config = bt.trigger_config;
  agent_prompt = fill_variables vars bt.agent_prompt;
  missed_task_policy = default_to "run_immediately" bt.missed_task_policy;
  depends_on_task_id = if bt.depends_on == "" then none else mapped_id bt.depends_on ids;
  next_run = env.now;
  requires_approval = bt.requires_approval;
  trigger_on_completion = bt.trigger_on_completion;
  task_type = default_to "mcp_sampling" bt.task_type;
  native_code = bt.native_code;
  branch_condition = bt.branch_condition;
  loop_condition = none;
  swarm_config = bt.swarm_config;
}

abbrev note_id : String → Uuid → IdMap → IdMap
note_id key id ids = if key == "" then ids else (key, id) ∷ ids

-- The loop over the tasks: `none` where one of them cannot be created.
unfoldable pub deploy_all :
    Env → String → List (String × String) → IdMap → List BlueprintTask → World → Option World
deploy_all env user vars ids [] w = some w
deploy_all env user vars ids (bt ∷ bts) w =
    let (v, made) = query_create_task env (blueprint_params env user vars ids bt) w in
    elim made [ none ↦ none | some id ↦ deploy_all env user vars (note_id bt.id id ids) bts v ]

unfoldable pub find_template : Uuid → List Template → Option Template
find_template id [] = none
find_template id (t ∷ ts) = if uuid_eq t.id id then some t else find_template id ts

count_use : Uuid → List Template → List Template
count_use id [] = []
count_use id (t ∷ ts) =
    (if uuid_eq t.id id then record t { uses_count = t.uses_count +ℤ pos 1 } else t)
    ∷ count_use id ts

-- IncrementTemplateUses; a failure is only logged, but it aborts the transaction.
unfoldable pub query_increment_template_uses : Uuid → World → World
unfolding count_use
query_increment_template_uses id w = record w { templates = count_use id w.templates }

-- What the transaction makes, `none` where it is rolled back.
unfoldable pub deploy_in_transaction :
    Env → String → List (String × String) → Uuid → List BlueprintTask → World → Option World
deploy_in_transaction env user vars id bts w =
    if env.fails begin_transaction then none else elim (deploy_all env user vars [] bts w) [
      | none ↦ none
      | some v ↦
          if env.fails increment_template_uses || env.fails commit_transaction
          then none
          else some (query_increment_template_uses id v)
    ]

pub record DeployRequest : Type 0 where
  pub template_id : String
  pub workspace_id : String
  pub variables : List (String × String)

-- The workspace's id: left out or well formed.
unfoldable pub workspace_ok : String → Bool
workspace_ok text = text == "" || not (is_none (parse_uuid text))

unfoldable pub deploy_template :
    Env → String → DeployRequest → Uuid → Option Template → World → Answered
deploy_template env user req id none w = (w, 404 ∷ [])
deploy_template env user req id (some template) w = elim template.config [
  | none ↦ (w, 500 ∷ [])
  | some bts ↦
      if not (workspace_ok req.workspace_id)
      then (w, 400 ∷ [])
      else elim (deploy_in_transaction env user req.variables id bts w) [
        | none ↦ (w, 500 ∷ [])
        | some v ↦ (v, 201 ∷ [])
      ]
]

-- apiDeployBlueprintHandler
unfoldable pub api_deploy_blueprint : Env → String → Option DeployRequest → World → Answered
api_deploy_blueprint env user body w = if user == "" then (w, 401 ∷ []) else elim body [
  | none ↦ (w, 400 ∷ [])
  | some req ↦ elim (parse_uuid req.template_id) [
    | none ↦ (w, 400 ∷ [])
    | some id ↦
        if env.fails get_template_by_id_raw
        then (w, 500 ∷ [])
        else deploy_template env user req id (find_template id w.templates) w
  ]
]
