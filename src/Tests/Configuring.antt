-- ===== src/Tests/Configuring.antt =====
-- The theorems on the configuration, for a deployment in production.
use gsactions_mcp.Common.{
  ◌==◌, ℕ, String, ◌≡◌, refl, ◌↔◌, ◌⊎◌, false, none, some, List, [], ◌∷◌, ◌++◌, if◌then◌else◌,
  length, to_chars,
}
use gsactions_mcp.Common.Int.{pos, ◌≤ℤ◌}
use gsactions_mcp.Config.{
  Url, Given, env_bool, env_int, production_mode, read_config, check_url, check_key, check_stripe,
  check_production, load_runtime_config,
}
use gsactions_mcp.Config.Origins.{trim_suffix, both, default_origins, csrf_trusted_origins}
use gsactions_mcp.Config.Trusted.{occurrences, cleaned_from, csrf_trusted_origins_deployed}
use gsactions_mcp.Config.Validation.{
  IsSafe, load_runtime_config_iff, load_runtime_config-init_crypto,
}
use gsactions_mcp.Crypto.{init_crypto, encrypt, decrypt}
use gsactions_mcp.Tests.Portal.{plain_gcm}
use gsactions_mcp.Uuid.{hex_value, hex_decode}

abbrev production_env : String → String
production_env name =
    if name == "ENV"
    then "production"
    else if name == "DATABASE_URL"
    then "postgres://prod"
    else if name == "REDIS_URL"
    then "redis://prod:6379/0"
    else if name == "BASE_URL"
    then "https://app.example.com"
    else if name == "CSRF_KEY"
    then "abcdefghijklmnopqrstuvwxyz123456"
    else if name == "ENCRYPTION_KEY"
    then "00112233445566778899aabbccddeeff00112233445566778899aabbccddeeff"
    else ""

abbrev example_url : Url
example_url = record { scheme = "https"; host = "app.example.com"; hostname = "app.example.com" }

abbrev given_now : Given
given_now = record {
  getenv = production_env;
  parse_url = λ s. some example_url;
  atoi = λ s. none;
  byte_length = λ s. length (to_chars s);
  trim_space = λ s. s;
  to_lower = λ s. s;
  local_ips = none;
}

load_runtime_config_iff_example :
    ((load_runtime_config given_now).0 ≡ read_config given_now)
    × (pos 256 ≤ℤ (read_config given_now).max_llm_response_chars)
    × (((load_runtime_config given_now).1 ≡ none) ↔ (
        (production_mode (read_config given_now) ≡ false)
        ⊎ IsSafe given_now (read_config given_now)))
load_runtime_config_iff_example = load_runtime_config_iff given_now

accepted_now : (load_runtime_config given_now).1 ≡ none
unfolding load_runtime_config read_config check_production check_url check_key check_stripe env_bool
    env_int hex_decode hex_value
accepted_now = refl

load_runtime_config-init_crypto_example :
    (key sealed : List ℕ) × (init_crypto (read_config given_now).encryption_key ≡ some key)
    × (encrypt plain_gcm key (some (7 ∷ 7 ∷ [])) (1 ∷ []) ≡ some sealed)
    × (decrypt plain_gcm key sealed ≡ some (1 ∷ []))
unfolding read_config
load_runtime_config-init_crypto_example =
    load_runtime_config-init_crypto given_now plain_gcm (7 ∷ 7 ∷ []) (1 ∷ []) (λ key full. refl)
      (λ key nonce plain valid. refl) refl refl accepted_now

csrf_trusted_origins_deployed_example :
    occurrences "http://localhost" (csrf_trusted_origins given_now (read_config given_now)) ≡ (
      if cleaned_from given_now
        (default_origins
          ++ trim_suffix "https://app.example.com"
            ∷ (both "app.example.com" ++ both "app.example.com"))
        "http://localhost"
      then 1
      else 0)
unfolding read_config
csrf_trusted_origins_deployed_example =
    csrf_trusted_origins_deployed given_now (read_config given_now) example_url "http://localhost"
      refl refl (λ h. cc) refl (λ h. cc) (λ h. cc)
