-- ===== src/Webhooks/Manage.antt =====
-- The handlers of cmd/server/api_handlers.go that make and remove a user's webhooks.
use gsactions_mcp.Common.{
  ◌==◌, ℕ, String, Bool, true, ◌&&◌, Option, none, some, List, [], ◌∷◌, ◌++◌, nat_eq, if◌then◌else◌,
  length, from_chars,
}
use gsactions_mcp.Rest.{must_parse_uuid}
use gsactions_mcp.Uuid.{Uuid, uuid_eq, hex_encode, format_uuid}
use gsactions_mcp.Webhooks.{OutboundWebhook, Hooks}

-- What the handlers are given.
pub record Making : Type 0 where
  -- Encrypt of cmd/server/crypto.go, on texts
  pub encrypt : String → Option String
  -- 32 bytes from crypto/rand, if it does not fail
  pub random_bytes : Option (List ℕ)
  pub new_webhook_id : Uuid
  pub create_fails : Bool
  pub delete_fails : Bool

pub record WebhookCreateInput : Type 0 where
  pub endpoint_url : String
  pub event_types : List String
  pub signing_secret : String

abbrev note : String → String → String → Hooks → Hooks
note user action id h = record h {
  audits =
      record { user_id = user; action = action; resource_type = "webhook"; resource_id = id }
      ∷ h.audits;
}

-- generateSigningSecret, and the secret of the request where it has one
unfoldable pub secret_of : Making → String → Option String
secret_of m given =
    if given == ""
    then elim m.random_bytes [ none ↦ none | some bytes ↦ some (from_chars (hex_encode bytes)) ]
    else some given

abbrev pub new_webhook : Making → String → WebhookCreateInput → String → OutboundWebhook
new_webhook m user input sealed = record {
  id = m.new_webhook_id;
  user_id = user;
  endpoint_url = input.endpoint_url;
  event_types = some input.event_types;
  encrypted_signing_secret = sealed;
  is_active = true;
}

-- CreateOutboundWebhook; `none` is an error.
unfoldable pub query_create_outbound_webhook : Making → OutboundWebhook → Hooks → Option Hooks
query_create_outbound_webhook m w h =
    if m.create_fails then none else some (record h { webhooks = w ∷ h.webhooks })

unfoldable pub create_sealed :
    Making
    → String
    → WebhookCreateInput
    → String
    → Option String
    → Hooks
    → Hooks × ℕ × Option String
create_sealed m user input secret none h = (h, 500, none)
create_sealed m user input secret (some sealed) h =
    elim (query_create_outbound_webhook m (new_webhook m user input sealed) h) [
      | none ↦ (h, 500, none)
      | some h' ↦ (note user "webhook.create" (format_uuid m.new_webhook_id) h', 201, some secret)
    ]

-- apiCreateWebhookHandler: the new state, the status and the secret that the answer tells.
unfoldable pub api_create_webhook :
    Making → Option String → Option WebhookCreateInput → Hooks → Hooks × ℕ × Option String
api_create_webhook m none body h = (h, 401, none)
api_create_webhook m (some user) none h = (h, 400, none)
api_create_webhook m (some user) (some input) h =
    if input.endpoint_url == ""
    then (h, 400, none)
    else if nat_eq (length input.event_types) 0
    then (h, 400, none)
    else elim (secret_of m input.signing_secret) [
      | none ↦ (h, 500, none)
      | some secret ↦ create_sealed m user input secret (m.encrypt secret) h
    ]

unfoldable webhooks_without : Uuid → String → List OutboundWebhook → List OutboundWebhook
webhooks_without id user [] = []
webhooks_without id user (w ∷ ws) =
    if uuid_eq w.id id && w.user_id == user
    then webhooks_without id user ws
    else w ∷ webhooks_without id user ws

-- DeleteOutboundWebhook; NULL is the id of no row.
unfoldable query_delete_outbound_webhook : Option Uuid → String → Hooks → Hooks
query_delete_outbound_webhook none user h = h
query_delete_outbound_webhook (some id) user h = record h {
  webhooks = webhooks_without id user h.webhooks;
}

-- apiDeleteWebhookHandler: the new state and the status codes that it writes.
unfoldable api_delete_webhook : Making → Option String → String → Hooks → Hooks × List ℕ
api_delete_webhook m none text h = (h, 401 ∷ [])
api_delete_webhook m (some user) text h =
    let (id, written) = must_parse_uuid text in
    if m.delete_fails then (h, written ++ 500 ∷ []) else (
      note user "webhook.delete" text (query_delete_outbound_webhook id user h),
      written ++ 200 ∷ [],
    )
