-- ===== src/Prompt/Injection.antt =====
-- What the body of a webhook can put into a prompt.
use gsactions_mcp.Common.{
  ℕ, Char, code, String, ◌≡◌, refl, sym, ap, ◌∙◌, true, false, Option, none, some, [], ◌∷◌, ◌++◌,
  append-nil, arith, nat_eq, All, to_chars, from_chars, to_chars-from_chars,
}
use gsactions_mcp.Json.{string, Fields, get_field, show_value}
use gsactions_mcp.Prompt.{
  payload_value, task_output_value, resolve_prompt_variables, Vault, secret_value, resolve_secrets,
}
use gsactions_mcp.Store.{World, Env}
use gsactions_mcp.Template.{
  Pattern, Chars, strip_prefix, match_at, replacement, replace_all, word_char, not_empty, braces,
  secret_pattern, webhook_body_pattern, state_pattern, prompt_var_pattern,
}
use gsactions_mcp.Template.Laws.{
  Lacks, IsPattern, scan-other, replace_all-Lacks, replace_all-placeholder,
}
use gsactions_mcp.Template.Patterns.{
  secret-IsPattern, webhook_body-IsPattern, state-IsPattern, prompt_var-IsPattern,
}

-- A text of one opening brace pair that the pattern does not begin with is copied.
untouched :
    (r : Pattern) (value : Chars → Option Chars) (s : Chars)
    → IsPattern r
    → match_at r ("{" ∷ "{" ∷ s) ≡ none
    → match_at r ("{" ∷ s) ≡ none
    → Lacks b'{' s
    → replace_all r value ("{" ∷ "{" ∷ s) ≡ "{" ∷ "{" ∷ s
unfolding replace_all
untouched r value s w first second lacks =
    rw (scan-other r value "{" ("{" ∷ s) first, scan-other r value "{" s second)
      (ap (λ t. "{" ∷ "{" ∷ t) (unfold replace_all in replace_all-Lacks r value w s lacks))

word_char-ne-brace : (c : Char) → word_char c ≡ true → nat_eq (code c) b'{' ≡ false
unfolding word_char
word_char-ne-brace c h = ground arith

Lacks-append : (b : ℕ) (s t : Chars) → Lacks b s → Lacks b t → Lacks b (s ++ t)
Lacks-append b [] t h k = k
Lacks-append b (c ∷ s) t (h, hs) k = (h, Lacks-append b s t hs k)

Lacks-words : (s : Chars) → All (λ c. word_char c ≡ true) s → Lacks b'{' s
Lacks-words [] h = tt
Lacks-words (c ∷ s) (h, hs) = (word_char-ne-brace c h, Lacks-words s hs)

-- The text of a placeholder.
abbrev pub placeholder : Pattern → Chars → Chars
placeholder r name = r.opening ++ (name ++ r.closing)

replace_all-one :
    (r : Pattern) (value : Chars → Option Chars) (name : Chars) {v : Chars}
    → IsPattern r
    → All (λ c. r.in_class c ≡ true) name
    → r.is_name name ≡ true
    → value name ≡ some v
    → replace_all r value (placeholder r name) ≡ v
unfolding replacement replace_all
replace_all-one r value name {v} w h n found =
    ap (λ c. replace_all r value (r.opening ++ (name ++ c))) (sym (append-nil r.closing))
    ∙ replace_all-placeholder r value w [] name [] tt h n
    ∙ rw (found, replacement) (append-nil v)

-- No other pattern finds a placeholder of a webhook's body.
body_untouched :
    (r : Pattern) (value : Chars → Option Chars) (key : Chars)
    → IsPattern r
    → match_at r (placeholder webhook_body_pattern key) ≡ none
    → match_at r ("{" ∷ to_chars "webhook.body." ++ (key ++ braces)) ≡ none
    → All (λ c. word_char c ≡ true) key
    → replace_all r value (placeholder webhook_body_pattern key)
      ≡ placeholder webhook_body_pattern key
body_untouched r value key w first second h =
    untouched r value (to_chars "webhook.body." ++ (key ++ braces)) w first second (
      Lacks-append b'{' (to_chars "webhook.body.") (key ++ braces) (ground arith)
        (Lacks-append b'{' key braces (Lacks-words key h) (ground arith)))

dispatched :
    (env : Env) (w : World) (user : String) (key body : Chars) (payload : Fields)
    (state : Option Fields)
    → All (λ c. word_char c ≡ true) key
    → not_empty key ≡ true
    → get_field (from_chars key) payload ≡ some (string (from_chars body))
    → resolve_prompt_variables env w user
        (from_chars (placeholder webhook_body_pattern key))
        (some payload)
        state
      ≡ from_chars body
unfolding resolve_prompt_variables show_value match_at strip_prefix
dispatched env w user key body payload state hk nk found =
    let raw = placeholder webhook_body_pattern key in
    ap from_chars (
      rw
        (
          to_chars-from_chars raw,
          body_untouched prompt_var_pattern (task_output_value env w user) key prompt_var-IsPattern
              refl refl hk,
          body_untouched state_pattern (payload_value env.floats state) key state-IsPattern refl
              refl hk,
        )
        (replace_all-one webhook_body_pattern (payload_value env.floats (some payload)) key
          webhook_body-IsPattern hk nk (rw (found, to_chars-from_chars body) refl)))

-- A variable of a webhook's body whose value is the placeholder of a secret brings that secret into
-- the prompt: what is put in for the variable when the task is dispatched is resolved as a secret
-- when the prompt is sampled. This is for a prompt that is the one placeholder.
resolve_secrets-webhook_body :
    (env : Env) (vault : Vault) (w : World) (user : String) (key name : Chars) (payload : Fields)
    (state : Option Fields)
    → All (λ c. word_char c ≡ true) key
    → not_empty key ≡ true
    → All (λ c. word_char c ≡ true) name
    → not_empty name ≡ true
    → get_field (from_chars key) payload
      ≡ some (string (from_chars (placeholder secret_pattern name)))
    → resolve_secrets vault user (
        to_chars (
          resolve_prompt_variables env w user
            (from_chars (placeholder webhook_body_pattern key))
            (some payload)
            state))
      ≡ secret_value vault user name
unfolding resolve_secrets
resolve_secrets-webhook_body env vault w user key name payload state hk nk hn nn found =
    rw
      (
        dispatched env w user key (placeholder secret_pattern name) payload state hk nk found,
        to_chars-from_chars (placeholder secret_pattern name),
      )
      (replace_all-one secret_pattern (λ n. some (secret_value vault user n)) name secret-IsPattern
        hn nn refl)
