-- ===== src/Webhooks.antt =====
-- cmd/server/webhooks.go: an event is posted to the webhooks of its user. The goroutines of the
-- deliveries are taken in the order of the rows. A delivery has one deadline, for its request and its record.
pub mod Reach
pub mod Manage
pub mod Managed
use gsactions_mcp.Common.{
  ◌==◌, ℕ, code, String, ◌<>◌, ◌⊎◌, inl, inr, Bool, false, ◌&&◌, ◌||◌, not, Option, none, some,
  List, [], ◌∷◌, ltb, leb, if◌then◌else◌, any,
}
use gsactions_mcp.Crypto.{decrypt}
use gsactions_mcp.Store.{PubSubEvent, AuditEvent}
use gsactions_mcp.Uuid.{Uuid}

-- A row of outbound_webhooks; its event types are `none` where json.Unmarshal fails.
pub record OutboundWebhook : Type 0 where
  pub id : Uuid
  pub user_id : String
  pub endpoint_url : String
  pub event_types : Option (List String)
  pub encrypted_signing_secret : String
  pub is_active : Bool

-- A row of webhook_deliveries.
pub record WebhookDelivery : Type 0 where
  pub webhook_id : Uuid
  pub user_id : String
  pub event_type : String
  pub status_code : Option ℕ
  pub success : Bool
  pub response_body : Option String

-- A request that is sent: its URL, its body and the headers X-Schedule-*.
pub record Posting : Type 0 where
  pub url : String
  pub body : String
  pub event : String
  pub timestamp : String
  pub signature : String

pub record Hooks : Type 0 where
  pub webhooks : List OutboundWebhook
  pub deliveries : List WebhookDelivery
  pub postings : List Posting
  pub audits : List AuditEvent

-- What the code is given.
pub record Outside : Type 0 where
  -- Decrypt of cmd/server/crypto.go
  pub decrypt : String → Option String
  -- HMAC-SHA256 of a message under a key, in hexadecimal digits
  pub hmac : String → String → String
  pub marshal_event : PubSubEvent → Option String
  -- the time in UTC as RFC 3339
  pub timestamp : String
  -- does http.NewRequest take the URL?
  pub valid_url : String → Bool
  -- the status and at most 4096 bytes of the body of an answer, or an error's text
  pub send : Posting → (ℕ × String) ⊎ String
  -- has the delivery's deadline passed when the answer, or the error, of the request is there?
  pub is_late : Posting → Bool
  pub list_fails : Bool
  -- does the insertion fail for a reason of its own?
  pub record_fails : Bool

-- webhookInterestedInEvent
unfoldable pub webhook_interested_in_event : List String → String → Bool
webhook_interested_in_event types event = any (λ c. c == "*" || c == event) types

-- signWebhookPayload
unfoldable pub sign_webhook_payload : Outside → String → String → String
sign_webhook_payload o body secret = o.hmac secret (o.timestamp <> ("." <> body))

abbrev text_or_null : String → Option String
text_or_null s = if s == "" then none else some s

-- recordWebhookDelivery, under a context that is done where the delivery is late: the insertion fails
-- then. An error is only logged.
unfoldable pub record_webhook_delivery :
    Outside → Bool → OutboundWebhook → PubSubEvent → Option ℕ → Bool → String → Hooks → Hooks
record_webhook_delivery o late w event code success body s =
    if late || o.record_fails then s else record s {
      deliveries =
          record {
            webhook_id = w.id;
            user_id = event.user_id;
            event_type = event.event_type;
            status_code = code;
            success = success;
            response_body = text_or_null body;
          }
          ∷ s.deliveries;
    }

abbrev is_success : ℕ → Bool
is_success code = leb 200 code && ltb code 300

unfoldable pub note_answer :
    Outside → Bool → OutboundWebhook → PubSubEvent → (ℕ × String) ⊎ String → Hooks → Hooks
note_answer o late w event (inr e) s = record_webhook_delivery o late w event none false e s
note_answer o late w event (inl (code, body)) s =
    record_webhook_delivery o late w event (some code) (is_success code) body s

-- deliverWebhookEvent
unfoldable pub deliver_webhook_event :
    Outside → OutboundWebhook → PubSubEvent → String → Hooks → Hooks
deliver_webhook_event o w event secret s = elim (o.marshal_event event) [
  | none ↦ s
  | some body ↦
      if not (o.valid_url w.endpoint_url)
      then s
      else (let posting : Posting = record {
        url = w.endpoint_url;
        body = body;
        event = event.event_type;
        timestamp = o.timestamp;
        signature = sign_webhook_payload o body secret;
      } in
          note_answer o (o.is_late posting) w event (o.send posting)
            (record s { postings = posting ∷ s.postings }))
]

-- The body of the loop over the rows.
unfoldable pub reach_webhook : Outside → PubSubEvent → OutboundWebhook → Hooks → Hooks
reach_webhook o event w s = elim w.event_types [
  | none ↦ s
  | some types ↦
      if not (webhook_interested_in_event types event.event_type)
      then s
      else elim (o.decrypt w.encrypted_signing_secret) [
        | none ↦ s
        | some secret ↦ deliver_webhook_event o w event secret s
      ]
]

-- ListActiveOutboundWebhooks, and the loop
unfoldable pub reach_all : Outside → PubSubEvent → List OutboundWebhook → Hooks → Hooks
reach_all o event [] s = s
reach_all o event (w ∷ ws) s =
    let next = if w.user_id == event.user_id && w.is_active then reach_webhook o event w s else s in
    reach_all o event ws next

-- dispatchOutboundWebhooks, which is all that handleSystemEvent does
unfoldable pub dispatch_outbound_webhooks : Outside → PubSubEvent → Hooks → Hooks
dispatch_outbound_webhooks o event s =
    if event.user_id == "" || o.list_fails then s else reach_all o event s.webhooks s
