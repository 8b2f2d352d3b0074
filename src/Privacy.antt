-- ===== src/Privacy.antt =====
-- cmd/server/privacy.go sanitizeLLMResponseForStorage, cmd/server/globals.go maskSensitiveData: what is
-- taken out of a text before it is stored.
use gsactions_mcp.Common.{String, ◌<>◌, not, List, [], ◌∷◌, if◌then◌else◌}
use gsactions_mcp.Common.Int.{ℤ, pos, ltb_ℤ}
use gsactions_mcp.Store.{Env}

-- The patterns and what each match becomes, in the order in which they are applied.
abbrev Rules : Type 0
Rules = List (String × String)

redact : Env → Rules → String → String
redact env [] s = s
redact env ((pattern_text, replacement_text) ∷ rules) s =
    redact env rules (env.replace_all_string pattern_text s replacement_text)

sensitive_patterns : Rules
sensitive_patterns =
    (
      "(?i)(api_key|password|secret|token|auth|key|pwd|credential)[\"']?\\s*[:=]\\s*[\"']?([a-zA-Z0-9._-]{8,})[\"']?",
      "$1: ********",
    )
    ∷ ("(?i)(Bearer\\s+)([a-zA-Z0-9._-]{10,})", "$1********")
    ∷ ("(?i)(sk_(live|test)_)([a-zA-Z0-9]{20,})", "********")
    ∷ ("(AKIA[0-9A-Z]{16})", "********")
    ∷ []

-- maskSensitiveData
unfoldable pub mask_sensitive_data : Env → String → String
unfolding redact sensitive_patterns
mask_sensitive_data env = redact env sensitive_patterns

response_patterns : Rules
response_patterns =
    ("(?i)bearer\\s+[A-Za-z0-9._\\-]+", "Bearer [REDACTED]")
    ∷ ("sk-[A-Za-z0-9]{10,}", "[REDACTED_OPENAI_KEY]")
    ∷ ("\\b[0-9a-fA-F]{32,}\\b", "[REDACTED_HEX_TOKEN]")
    ∷ ("(?i)(api[_ -]?key[\"=: ]+)([A-Za-z0-9_\\-]{8,})", "${1}[REDACTED]")
    ∷ []

abbrev pub omitted : String
omitted = "[omitted_by_policy]"

abbrev pub truncated : String
truncated = "...[truncated]"

unfoldable pub max_chars : Env → ℤ
max_chars env =
    if ltb_ℤ (pos 0) env.max_llm_response_chars then env.max_llm_response_chars else pos 4000

unfoldable pub sanitized : Env → String → String
unfolding redact response_patterns
sanitized env = redact env response_patterns

-- sanitizeLLMResponseForStorage
unfoldable pub sanitize_llm_response_for_storage : Env → String → String
sanitize_llm_response_for_storage env raw =
    if not env.store_llm_responses
    then omitted
    else (let text = sanitized env raw in
        if ltb_ℤ (max_chars env) (env.byte_length text)
        then env.byte_prefix (max_chars env) text <> truncated
        else text)
