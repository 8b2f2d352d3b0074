-- ===== src/Config.antt =====
-- cmd/server/config.go: the configuration of the process and what it must be in production. url.Parse,
-- strconv.Atoi, the length of a text in bytes and the environment are given.
pub mod Origins
pub mod Validation
pub mod Trusted
use gsactions_mcp.Common.{
  ◌==◌, ℕ, String, Bool, true, false, ◌&&◌, ◌||◌, not, Option, none, some, List, ltb, nat_eq,
  if◌then◌else◌, length, to_chars,
}
use gsactions_mcp.Common.Int.{ℤ, pos, ltb_ℤ}
use gsactions_mcp.Uuid.{hex_decode}

-- url.URL: its scheme, Host and Hostname().
pub record Url : Type 0 where
  pub scheme : String
  pub host : String
  pub hostname : String

pub record Given : Type 0 where
  pub getenv : String → String
  pub parse_url : String → Option Url
  pub atoi : String → Option ℤ
  pub byte_length : String → ℕ
  -- strings.TrimSpace and strings.ToLower
  pub trim_space : String → String
  pub to_lower : String → String
  -- the texts of the IPv4 addresses of the host's interfaces that are no loopback, if they are known
  pub local_ips : Option (List String)

-- runtimeConfig
pub record RuntimeConfig : Type 0 where
  pub env : String
  pub local_dev : Bool
  pub database_url : String
  pub redis_url : String
  pub base_url : String
  pub csrf_key : String
  pub encryption_key : String
  pub stripe_api_key : String
  pub stripe_webhook_secret : String
  pub stripe_pro_price_id : String
  pub store_llm_responses : Bool
  pub max_llm_response_chars : ℤ

-- The errors of loadRuntimeConfigFromEnv.
pub data ConfigError : Type 0 where
  database_url_required redis_url_required base_url_required : ConfigError
  base_url_not_absolute base_url_not_https csrf_key_insecure : ConfigError
  encryption_key_length encryption_key_decoding stripe_incomplete : ConfigError

abbrev pub default_csrf_key : String
default_csrf_key = "01234567890123456789012345678901"

-- strconv.ParseBool
unfoldable pub parse_bool : String → Option Bool
parse_bool s =
    if s == "1" || s == "t" || s == "T" || s == "true" || s == "TRUE" || s == "True"
    then some true
    else if s == "0" || s == "f" || s == "F" || s == "false" || s == "FALSE" || s == "False"
    then some false
    else none

-- envBool
unfoldable pub env_bool : Given → String → Bool → Bool
env_bool g name fallback =
    if g.getenv name == ""
    then fallback
    else elim (parse_bool (g.getenv name)) [ none ↦ fallback | some b ↦ b ]

-- envInt
unfoldable pub env_int : Given → String → ℤ → ℤ
env_int g name fallback =
    if g.getenv name == ""
    then fallback
    else elim (g.atoi (g.getenv name)) [ none ↦ fallback | some n ↦ n ]

-- productionMode, and secureCookies, which has the same body.
abbrev pub production_mode : RuntimeConfig → Bool
production_mode c = c.env == "production" && not c.local_dev

abbrev at_least_256 : ℤ → ℤ
at_least_256 n = if ltb_ℤ n (pos 256) then pos 256 else n

-- The values of the environment, and the limit on the length of a stored answer.
unfoldable pub read_config : Given → RuntimeConfig
read_config g = record {
  env = g.getenv "ENV";
  local_dev = g.getenv "LOCAL_DEV" == "true";
  database_url = g.getenv "DATABASE_URL";
  redis_url = g.getenv "REDIS_URL";
  base_url = g.getenv "BASE_URL";
  csrf_key = g.getenv "CSRF_KEY";
  encryption_key = g.getenv "ENCRYPTION_KEY";
  stripe_api_key = g.getenv "STRIPE_API_KEY";
  stripe_webhook_secret = g.getenv "STRIPE_WEBHOOK_SECRET";
  stripe_pro_price_id = g.getenv "STRIPE_PRO_PRICE_ID";
  store_llm_responses = env_bool g "STORE_LLM_RESPONSES" true;
  max_llm_response_chars = at_least_256 (env_int g "MAX_LLM_RESPONSE_CHARS" (pos 4000));
}

-- The checks of BASE_URL, of the keys and of Stripe, each before those that follow.
unfoldable pub check_url : Option Url → Option ConfigError → Option ConfigError
check_url none rest = some base_url_not_absolute
check_url (some u) rest =
    if u.scheme == "" || u.host == ""
    then some base_url_not_absolute
    else if not (u.scheme == "https")
    then some base_url_not_https
    else rest

unfoldable pub check_key : Option (List ℕ) → Option ConfigError → Option ConfigError
check_key none rest = some encryption_key_decoding
check_key (some key) rest =
    if not (nat_eq (length key) 32) then some encryption_key_decoding else rest

unfoldable pub check_stripe : RuntimeConfig → Option ConfigError
check_stripe c =
    if not (c.stripe_api_key == "")
      || not (c.stripe_webhook_secret == "")
      || not (c.stripe_pro_price_id == "")
    then if c.stripe_api_key == "" || c.stripe_webhook_secret == "" || c.stripe_pro_price_id == ""
      then some stripe_incomplete
      else none
    else none

-- What production asks for; `none` is no error.
unfoldable pub check_production : Given → RuntimeConfig → Option ConfigError
check_production g c =
    if c.database_url == ""
    then some database_url_required
    else if c.redis_url == ""
    then some redis_url_required
    else if c.base_url == ""
    then some base_url_required
    else check_url (g.parse_url c.base_url) (
        if ltb (g.byte_length c.csrf_key) 32 || c.csrf_key == default_csrf_key
        then some csrf_key_insecure
        else if not (nat_eq (g.byte_length c.encryption_key) 64)
        then some encryption_key_length
        else check_key (hex_decode (to_chars c.encryption_key)) (check_stripe c))

-- loadRuntimeConfigFromEnv: the configuration, and the error if there is one.
unfoldable pub load_runtime_config : Given → RuntimeConfig × Option ConfigError
load_runtime_config g =
    let c = read_config g in
    if not (production_mode c) then (c, none) else (c, check_production g c)
