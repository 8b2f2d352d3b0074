-- ===== src/Sampling/Omission.antt =====
-- What the privacy settings do to an answer's state update.
use gsactions_mcp.Answer.{Client}
use gsactions_mcp.Common.{
  String, ◌<>◌, ◌≡◌, refl, ◌⊎◌, inl, inr, Bool, true, false, none, some, Bool-cases,
}
use gsactions_mcp.Common.Int.{ltb_ℤ}
use gsactions_mcp.Json.{Json, unmarshal_map}
use gsactions_mcp.Privacy.{
  omitted, truncated, max_chars, sanitized, sanitize_llm_response_for_storage,
}
use gsactions_mcp.Sampling.{
  apply_update, stored_response, advance_sampled, sampling_logged, sampling_succeeded,
}
use gsactions_mcp.Store.{Task, TriggerMessage, World, Env}

module _ (env : Env) (client : Client) (t : Task) where
  apply_update-unread :
      (execution response : String) (w : World)
      → client.parse_json response ≡ none
      → apply_update env client t.id execution response w ≡ some w
  unfolding apply_update unmarshal_map
  apply_update-unread execution response w unread = rw (unread, apply_update) refl

  -- A text that is left out or cut off is no JSON.
  parse-sanitize :
      (raw : String)
      → client.parse_json omitted ≡ none
      → ((s : String) → client.parse_json (s <> truncated) ≡ none)
      → (env.store_llm_responses ≡ false)
        ⊎ (ltb_ℤ (max_chars env) (env.byte_length (sanitized env raw)) ≡ true)
      → client.parse_json (sanitize_llm_response_for_storage env raw) ≡ none
  unfolding sanitize_llm_response_for_storage
  parse-sanitize raw no_text no_tail (inl off) = rw (off) no_text
  parse-sanitize raw no_text no_tail (inr long) = elim (Bool-cases env.store_llm_responses) [
    | inl on ↦ rw (long, on) (no_tail _)
    | inr off ↦ rw (off) no_text
  ]

  -- The state update of an answer is lost where the answer is not stored, by STORE_LLM_RESPONSES, or
  -- is longer than what is stored of an answer: whatever the model answers, the task is logged and
  -- scheduled as if its answer had no state update. This is for a JSON decoder that refuses the text
  -- that stands for an answer left out, and any text with the mark of truncation at its end.
  sampling_succeeded-omitted :
      (msg : TriggerMessage) (chained : Bool) (res : Json) (w : World)
      → client.parse_json omitted ≡ none
      → ((s : String) → client.parse_json (s <> truncated) ≡ none)
      → (env.store_llm_responses ≡ false)
        ⊎ (ltb_ℤ (max_chars env) (env.byte_length (sanitized env (env.marshal_json res))) ≡ true)
      → sampling_succeeded env client t msg chained (some res) w
        ≡ advance_sampled env t msg (
            sampling_logged env t msg chained
              (sanitize_llm_response_for_storage env (env.marshal_json res))
              w)
  unfolding sampling_succeeded stored_response
  sampling_succeeded-omitted msg chained res w no_text no_tail cut =
      let lost =
        apply_update-unread msg.execution_id
          (sanitize_llm_response_for_storage env (env.marshal_json res)) w
          (parse-sanitize (env.marshal_json res) no_text no_tail cut) in
      rw (lost, sampling_succeeded) refl
