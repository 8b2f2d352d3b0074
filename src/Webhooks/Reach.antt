-- ===== src/Webhooks/Reach.antt =====
-- Which webhooks an event reaches.
use gsactions_mcp.Common.{
  ◌==◌, String, ◌≡◌, Bool, false, ◌&&◌, not, none, some, List, [], ◌∷◌, map, if◌then◌else◌, is_none,
}
use gsactions_mcp.Store.{PubSubEvent}
use gsactions_mcp.Uuid.{Uuid}
use gsactions_mcp.Webhooks.{
  OutboundWebhook, Hooks, Outside, webhook_interested_in_event, sign_webhook_payload,
}

-- A webhook that an event is posted to: an active one of the event's user, interested in events of
-- the type, with a secret that is decrypted and a URL that a request can be made of.
abbrev is_reached : Outside → PubSubEvent → OutboundWebhook → Bool
is_reached o event w =
    (w.user_id == event.user_id && w.is_active)
    && (elim w.event_types [
      | none ↦ false
      | some types ↦ webhook_interested_in_event types event.event_type
    ])
    && not (is_none (o.decrypt w.encrypted_signing_secret))
    && not (is_none (o.marshal_event event))
    && o.valid_url w.endpoint_url

-- Is the deadline of the posting to this webhook still ahead when it has been answered?
abbrev in_time : Outside → PubSubEvent → OutboundWebhook → Bool
in_time o event w = elim (o.decrypt w.encrypted_signing_secret) [
  | none ↦ false
  | some secret ↦ elim (o.marshal_event event) [
    | none ↦ false
    | some body ↦ not (
        o.is_late (record {
          url = w.endpoint_url;
          body = body;
          event = event.event_type;
          timestamp = o.timestamp;
          signature = sign_webhook_payload o body secret;
        }))
  ]
]

-- The URLs of the requests, and whom the deliveries are noted for.
abbrev pub posting_urls : Hooks → List String
posting_urls s = map (λ p. p.url) s.postings

abbrev pub delivery_rows : Hooks → List (Uuid × String)
delivery_rows s = map (λ d. (d.webhook_id, d.user_id)) s.deliveries

-- What the webhooks that meet a test add to a list, the last one first.
abbrev reached_before {ℓ} :
    {A : Type ℓ}
    → (OutboundWebhook → Bool)
    → (OutboundWebhook → A)
    → List OutboundWebhook
    → List A
    → List A
reached_before p f [] before = before
reached_before p f (w ∷ ws) before = reached_before p f ws (if p w then f w ∷ before else before)

module _ (o : Outside) (event : PubSubEvent) where
  -- One more request, if the webhook is reached, and one more row, if it is so in time.
  abbrev Sent : Bool → OutboundWebhook → Hooks → Hooks → Type 0
  Sent b w s r =
      (posting_urls r ≡ (if b then w.endpoint_url ∷ posting_urls s else posting_urls s))
      × (delivery_rows r ≡ (
          if b && in_time o event w
          then (w.id, event.user_id) ∷ delivery_rows s
          else delivery_rows s))
