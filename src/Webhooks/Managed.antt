-- ===== src/Webhooks/Managed.antt =====
-- From the creation of a webhook to the requests that are sent to it.
use gsactions_mcp.Common.{
  ◌==◌, eq_iff, ℕ, suc, code, String, ◌≡◌, sym, ap, subst, ◌∙◌, ◌≢◌, ◌⊎◌, inl, inr, Bool, true,
  false, ◌&&◌, ◌||◌, Option, some, List, [], ◌∷◌, arith, Bool-cases, Option-cases, some-inj,
  get_elem?,
}
use gsactions_mcp.Store.{PubSubEvent}
use gsactions_mcp.Webhooks.{
  OutboundWebhook, Posting, Hooks, Outside, webhook_interested_in_event, sign_webhook_payload,
  record_webhook_delivery, note_answer, deliver_webhook_event, reach_webhook, reach_all,
  dispatch_outbound_webhooks,
}
use gsactions_mcp.Webhooks.Manage.{
  Making, WebhookCreateInput, secret_of, new_webhook, query_create_outbound_webhook, create_sealed,
  api_create_webhook,
}

-- A request has been sent.
abbrev pub Posted : Posting → Hooks → Type 0
Posted p h = (i : ℕ) × (get_elem? h.postings i ≡ some p)

module _ (o : Outside) (event : PubSubEvent) where
  postings-note_answer :
      (late : Bool) (w : OutboundWebhook) (r : (ℕ × String) ⊎ String) (s : Hooks)
      → (note_answer o late w event r s).postings ≡ s.postings
  unfolding note_answer record_webhook_delivery
  postings-note_answer late w (inl (code, body)) s = ground arith
  postings-note_answer late w (inr e) s = ground arith

  -- What a delivery sends.
  abbrev posting_to : OutboundWebhook → String → String → Posting
  posting_to w body secret = record {
    url = w.endpoint_url;
    body = body;
    event = event.event_type;
    timestamp = o.timestamp;
    signature = sign_webhook_payload o body secret;
  }

  deliver-postings :
      (w : OutboundWebhook) (secret body : String) (s : Hooks)
      → o.marshal_event event ≡ some body
      → o.valid_url w.endpoint_url ≡ true
      → (deliver_webhook_event o w event secret s).postings ≡ posting_to w body secret ∷ s.postings
  unfolding deliver_webhook_event
  deliver-postings w secret body s marshalled valid =
      rw (marshalled, deliver_webhook_event) (rw valid (postings-note_answer _ w _ _))

  deliver-Posted :
      (p : Posting) (w : OutboundWebhook) (secret : String) (s : Hooks)
      → Posted p s
      → Posted p (deliver_webhook_event o w event secret s)
  deliver-Posted p w secret s (i, there) = elim (Option-cases (o.marshal_event event)) [
    | inl bad ↦ (i, unfold deliver_webhook_event in rw (bad, deliver_webhook_event) there)
    | inr (body, good) ↦ elim (Bool-cases (o.valid_url w.endpoint_url)) [
      | inr no_url ↦ (i, unfold deliver_webhook_event in ground (arith, good, no_url, there))
      | inl valid ↦ (
        suc i,
        ap (λ ps. get_elem? ps (suc i)) (deliver-postings w secret body s good valid) ∙ there,
      )
    ]
  ]

  reach_webhook-Posted :
      (p : Posting) (w : OutboundWebhook) (s : Hooks)
      → Posted p s
      → Posted p (reach_webhook o event w s)
  unfolding reach_webhook
  reach_webhook-Posted p w s there = elim (Option-cases w.event_types) [
    | inl unread ↦ rw (unread, reach_webhook) there
    | inr (types, read) ↦ elim (Bool-cases (webhook_interested_in_event types event.event_type)) [
      | inr bored ↦ rw (read, reach_webhook) (rw bored there)
      | inl keen ↦ elim (Option-cases (o.decrypt w.encrypted_signing_secret)) [
        | inl shut ↦ rw (read, reach_webhook) (rw (keen, shut) there)
        | inr (secret, opened) ↦
            rw (read, reach_webhook) (rw (keen, opened) (deliver-Posted p w secret s there))
      ]
    ]
  ]

  reach_all-Posted :
      (p : Posting) (ws : List OutboundWebhook) (s : Hooks)
      → Posted p s
      → Posted p (reach_all o event ws s)
  unfolding reach_all
  reach_all-Posted p [] s there = there
  reach_all-Posted p (w ∷ ws) s there =
      reach_all-Posted p ws _ (elim (Bool-cases (w.user_id == event.user_id && w.is_active)) [
        | inl mine ↦ rw mine (reach_webhook-Posted p w s there)
        | inr other ↦ rw other there
      ])

module _ (m : Making) (user : String) (input : WebhookCreateInput) (h : Hooks) where
  abbrev created : Hooks × ℕ × Option String
  created = api_create_webhook m (some user) (some input) h

  -- What a creation that is answered with 201 has put into the table.
  made_webhook :
      created.1 ≡ 201
      → (secret sealed : String) × (m.encrypt secret ≡ some sealed)
        × (created.2 ≡ some secret)
        × (created.0.webhooks ≡ new_webhook m user input sealed ∷ h.webhooks)
  unfolding api_create_webhook create_sealed query_create_outbound_webhook
  made_webhook ok = elim (Option-cases (secret_of m input.signing_secret)) [
    | inl no_secret ↦ absurd (ground (arith, ok, no_secret))
    | inr (secret, chosen) ↦ elim (Option-cases (m.encrypt secret)) [
      | inl broken ↦ absurd (ground (arith, ok, chosen, broken))
      | inr (sealed, made) ↦
          (secret, sealed, made, ground (arith, ok, chosen, made), ground (arith, ok, chosen, made))
    ]
  ]

  first_reached :
      (o : Outside) (event : PubSubEvent) (body secret sealed : String) (s : Hooks)
      → s.webhooks ≡ new_webhook m user input sealed ∷ h.webhooks
      → o.decrypt sealed ≡ some secret
      → event.user_id ≡ user
      → user ≢ ""
      → o.list_fails ≡ false
      → webhook_interested_in_event input.event_types event.event_type ≡ true
      → o.marshal_event event ≡ some body
      → o.valid_url input.endpoint_url ≡ true
      → Posted
          (posting_to o event (new_webhook m user input sealed) body secret)
          (dispatch_outbound_webhooks o event s)
  unfolding dispatch_outbound_webhooks reach_all reach_webhook
  first_reached o event body secret sealed s made opens mine named up keen marshalled valid =
      let w = new_webhook m user input sealed in
      let open_list : (event.user_id == "" || o.list_fails) ≡ false =
        ground (arith, mine, named, up, eq_iff event.user_id "") in
      let owned_by : (user == event.user_id) ≡ true = (eq_iff user event.user_id).1 (sym mine) in
      rw (open_list, made)
        (reach_all-Posted o event (posting_to o event w body secret) h.webhooks _ (
          rw (owned_by, keen, opens)
            (
              0,
              ap (λ ps. get_elem? ps 0)
                  (deliver-postings o event w secret body (record s { webhooks = w ∷ h.webhooks })
                    marshalled valid),
            )))

  -- A webhook that was made with the answer 201 gets each later event of its user that is of one of
  -- its types: a request with the event is posted to its URL, signed with the secret that the answer
  -- told. This takes of the cipher that what is encrypted can be decrypted, and is for an event that
  -- can be marshalled, a URL that can be posted to, and webhooks that can be read.
  pub api_create_webhook-dispatch_outbound_webhooks :
      (o : Outside) (event : PubSubEvent) (body secret : String)
      → ((text sealed : String) → m.encrypt text ≡ some sealed → o.decrypt sealed ≡ some text)
      → (api_create_webhook m (some user) (some input) h).1 ≡ 201
      → (api_create_webhook m (some user) (some input) h).2 ≡ some secret
      → event.user_id ≡ user
      → user ≢ ""
      → o.list_fails ≡ false
      → webhook_interested_in_event input.event_types event.event_type ≡ true
      → o.marshal_event event ≡ some body
      → o.valid_url input.endpoint_url ≡ true
      → Posted
          (record {
            url = input.endpoint_url;
            body = body;
            event = event.event_type;
            timestamp = o.timestamp;
            signature = sign_webhook_payload o body secret;
          })
          (dispatch_outbound_webhooks o event (api_create_webhook m (some user) (some input) h).0)
  api_create_webhook-dispatch_outbound_webhooks o event body secret opens ok told mine named up keen
        marshalled valid =
      let (chosen, sealed, made, answered, kept) = made_webhook ok in
      let same : chosen ≡ secret = some-inj (sym answered ∙ told) in
      first_reached o event body secret sealed created.0 kept
        (subst (λ t. o.decrypt sealed ≡ some t) same (opens chosen sealed made)) mine named up keen
        marshalled valid
