-- ===== src/Tests/Connecting.antt =====
-- The theorems on connections and on deployments, at concrete values.
use gsactions_mcp.Blueprint.{
  replace_from, replace_text, fill_variables, find_template, DeployRequest, api_deploy_blueprint,
}
use gsactions_mcp.Blueprint.Laws.{Deployed, api_deploy_blueprint-Deployed}
use gsactions_mcp.Common.{◌<◌, ◌≡◌, refl, sym, inl, true, false, none, some, [], ◌∷◌, arith}
use gsactions_mcp.Common.Int.{pos}
use gsactions_mcp.Dispatch.Branches.{needs_approval, handle_dispatch_task}
use gsactions_mcp.Json.{object, end}
use gsactions_mcp.Presence.{
  Presence, is_online, remove_user, count_down, arrive, tick, disconnect, arrives, nobody_at,
  begins, later_on,
}
use gsactions_mcp.Presence.Closing.{handle_dispatch_task-disconnect}
use gsactions_mcp.Presence.Limit.{IsLimited, Reachable-IsLimited}
use gsactions_mcp.Store.{Task, BlueprintTask, Template, PubSubEvent, World}
use gsactions_mcp.Template.{strip_prefix}
use gsactions_mcp.Tests.{example_id, env_up, example_task, world_of}
use gsactions_mcp.Uuid.{uuid_eq, hex_value, hex_decode, strip_dashes, parse_uuid}
use gsactions_mcp.Webhooks.{
  OutboundWebhook, Hooks, Outside, webhook_interested_in_event, sign_webhook_payload,
  dispatch_outbound_webhooks,
}
use gsactions_mcp.Webhooks.Manage.{
  Making, WebhookCreateInput, secret_of, query_create_outbound_webhook, create_sealed,
  api_create_webhook,
}
use gsactions_mcp.Webhooks.Managed.{Posted, api_create_webhook-dispatch_outbound_webhooks}

abbrev two_there : Presence
two_there = arrive (arrive (nobody_at (pos 0)))

Reachable-IsLimited_example : IsLimited two_there
Reachable-IsLimited_example = Reachable-IsLimited (later_on (later_on begins arrives) arrives)

-- Two connections, as they are in Redis after a while.
abbrev both : Presence
both = record {
  now = pos 1000;
  session_until = some (pos 900000);
  conn_count = pos 2;
  count_until = some (pos 900000);
  connected = 2;
  leaving = 0;
}

abbrev missed_task : Task
missed_task = record example_task { user_id = "bob" }

handle_dispatch_task-disconnect_example :
    (0 < (disconnect both).connected)
    × ((handle_dispatch_task env_up missed_task none (world_of missed_task)).triggers ≡ [])
    × ((handle_dispatch_task env_up missed_task none (world_of missed_task)).outcomes
        ≡ "missed" ∷ [])
    × (is_online (tick (disconnect both)) ≡ true)
unfolding is_online disconnect remove_user count_down needs_approval
handle_dispatch_task-disconnect_example =
    handle_dispatch_task-disconnect env_up missed_task none (world_of missed_task) both
      (omega arith) refl refl

abbrev welcome : BlueprintTask
welcome = record {
  id = "a";
  name = "welcome";
  task_type = "";
  agent_prompt = "hello {{name}}";
  native_code = "";
  trigger_type = "cron";
  trigger_config = some (object end);
  requires_approval = false;
  missed_task_policy = "";
  depends_on = "";
  trigger_on_completion = false;
  branch_condition = none;
  swarm_config = none;
}

abbrev starter : Template
starter = record { id = example_id; config = some (welcome ∷ []); uses_count = pos 0 }

abbrev starter_world : World
starter_world = record (world_of example_task) { templates = starter ∷ [] }

abbrev deployment : DeployRequest
deployment = record {
  template_id = "00010203-0405-0607-0809-0a0b0c0d0e07";
  workspace_id = "";
  variables = ("name", "ann") ∷ [];
}

api_deploy_blueprint-Deployed_example :
    Deployed "ann" starter_world
      (welcome ∷ [])
      (api_deploy_blueprint env_up "ann" (some deployment) starter_world)
unfolding parse_uuid strip_dashes hex_decode hex_value find_template uuid_eq
api_deploy_blueprint-Deployed_example =
    api_deploy_blueprint-Deployed env_up "ann" starter_world deployment example_id starter
      (welcome ∷ []) refl refl refl

-- The variable is filled in.
filled : fill_variables deployment.variables welcome.agent_prompt ≡ "hello ann"
unfolding fill_variables replace_text replace_from strip_prefix
filled = refl

abbrev hook : OutboundWebhook
hook = record {
  id = example_id;
  user_id = "ann";
  endpoint_url = "https://example.com";
  event_types = some ("*" ∷ []);
  encrypted_signing_secret = "s";
  is_active = true;
}

abbrev outside : Outside
outside = record {
  decrypt = λ s. some s;
  hmac = λ k m. k;
  marshal_event = λ e. some "{}";
  timestamp = "2030-01-01T00:00:00Z";
  valid_url = λ u. true;
  send = λ p. inl (204, "");
  is_late = λ p. false;
  list_fails = false;
  record_fails = false;
}

-- A webhook of ann's and one of bob's.
abbrev hooks : Hooks
hooks = record {
  webhooks = hook ∷ record hook { user_id = "bob"; endpoint_url = "https://bob.example" } ∷ [];
  deliveries = [];
  postings = [];
  audits = [];
}

abbrev executed : PubSubEvent
executed = record { user_id = "ann"; event_type = "task_executed"; payload = [] }

abbrev making : Making
making = record {
  encrypt = λ s. some s;
  random_bytes = none;
  new_webhook_id = example_id;
  create_fails = false;
  delete_fails = false;
}

abbrev wanted_hook : WebhookCreateInput
wanted_hook = record {
  endpoint_url = "https://ann.example";
  event_types = "task_executed" ∷ [];
  signing_secret = "k";
}

-- The request is answered with its secret.
webhook_made :
    ((api_create_webhook making (some "ann") (some wanted_hook) hooks).1 ≡ 201)
    × ((api_create_webhook making (some "ann") (some wanted_hook) hooks).2 ≡ some "k")
unfolding api_create_webhook create_sealed secret_of query_create_outbound_webhook
webhook_made = (refl, refl)

api_create_webhook-dispatch_outbound_webhooks_example :
    Posted
      (record {
        url = "https://ann.example";
        body = "{}";
        event = "task_executed";
        timestamp = "2030-01-01T00:00:00Z";
        signature = sign_webhook_payload outside "{}" "k";
      })
      (dispatch_outbound_webhooks outside executed
        (api_create_webhook making (some "ann") (some wanted_hook) hooks).0)
unfolding webhook_interested_in_event
api_create_webhook-dispatch_outbound_webhooks_example =
    api_create_webhook-dispatch_outbound_webhooks making "ann" wanted_hook hooks outside executed
      "{}" "k" (λ text sealed made. sym made) webhook_made.0 webhook_made.1 refl (λ p. cc) refl refl
      refl refl
