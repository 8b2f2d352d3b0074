-- ===== src/Config/Validation.antt =====
-- The checks of loadRuntimeConfigFromEnv, and what they give to initCrypto.
use gsactions_mcp.Common.{
  ◌==◌, eq_iff, ℕ, ◌≤◌, String, ◌≡◌, subst, ◌≢◌, ◌↔◌, ◌⊎◌, inl, inr, true, false, ◌||◌, not, Option,
  none, some, List, [], ◌++◌, arith, ltb, nat_eq, if◌then◌else◌, nat_eq_iff, Bool-cases,
  Option-cases, length, to_chars,
}
use gsactions_mcp.Common.Int.{pos, ◌≤ℤ◌}
use gsactions_mcp.Config.{
  Url, Given, RuntimeConfig, ConfigError, csrf_key_insecure, encryption_key_length,
  default_csrf_key, production_mode, read_config, check_url, check_key, check_stripe,
  check_production, load_runtime_config,
}
use gsactions_mcp.Crypto.{Gcm, init_crypto, encrypt, decrypt}
use gsactions_mcp.Crypto.Laws.{Opens, decrypt-encrypt}
use gsactions_mcp.Uuid.{hex_decode}

-- BASE_URL is an absolute URL under https.
abbrev IsHttps : Option Url → Type 0
IsHttps none = ⊥
IsHttps (some u) = (u.scheme ≡ "https") × (u.host ≢ "")

abbrev Has32Bytes : Option (List ℕ) → Type 0
Has32Bytes none = ⊥
Has32Bytes (some key) = length key ≡ 32

-- The values for Stripe are all set, or all left out.
abbrev IsAllOrNone : RuntimeConfig → Type 0
IsAllOrNone c =
    ((c.stripe_api_key ≡ "") × (c.stripe_webhook_secret ≡ "") × (c.stripe_pro_price_id ≡ ""))
    ⊎ ((c.stripe_api_key ≢ "") × (c.stripe_webhook_secret ≢ "") × (c.stripe_pro_price_id ≢ ""))

abbrev pub IsSafe : Given → RuntimeConfig → Type 0
IsSafe g c =
    (c.database_url ≢ "")
    × (c.redis_url ≢ "")
    × (c.base_url ≢ "")
    × IsHttps (g.parse_url c.base_url)
    × (32 ≤ g.byte_length c.csrf_key)
    × (c.csrf_key ≢ default_csrf_key)
    × (g.byte_length c.encryption_key ≡ 64)
    × Has32Bytes (hex_decode (to_chars c.encryption_key))
    × IsAllOrNone c

check_stripe_iff : (c : RuntimeConfig) → (check_stripe c ≡ none) ↔ IsAllOrNone c
unfolding check_stripe
check_stripe_iff c = ground (
  arith,
  eq_iff c.stripe_api_key "",
  eq_iff c.stripe_webhook_secret "",
  eq_iff c.stripe_pro_price_id "",
)

check_key_iff :
    (o : Option (List ℕ)) (rest : Option ConfigError)
    → (check_key o rest ≡ none) ↔ (Has32Bytes o × (rest ≡ none))
unfolding check_key
check_key_iff none rest = ground arith
check_key_iff (some key) rest = ground arith

https-ne-empty : ◌≡◌ {A = String} "https" "" → ⊥
https-ne-empty h = cc

check_url_iff :
    (o : Option Url) (rest : Option ConfigError)
    → (check_url o rest ≡ none) ↔ (IsHttps o × (rest ≡ none))
unfolding check_url
check_url_iff none rest = ground arith
check_url_iff (some u) rest =
    ground (arith, eq_iff u.scheme "", eq_iff u.scheme "https", eq_iff u.host "", https-ne-empty)

-- What production asks for is all that is checked.
check_production_iff : (g : Given) (c : RuntimeConfig) → (check_production g c ≡ none) ↔ IsSafe g c
unfolding check_production
check_production_iff g c = ground (
  arith,
  eq_iff c.database_url "",
  eq_iff c.redis_url "",
  eq_iff c.base_url "",
  eq_iff c.csrf_key default_csrf_key,
  check_url_iff (g.parse_url c.base_url) (
      if ltb (g.byte_length c.csrf_key) 32 || c.csrf_key == default_csrf_key
      then some csrf_key_insecure
      else if not (nat_eq (g.byte_length c.encryption_key) 64)
      then some encryption_key_length
      else check_key (hex_decode (to_chars c.encryption_key)) (check_stripe c)),
  check_key_iff (hex_decode (to_chars c.encryption_key)) (check_stripe c),
  check_stripe_iff c,
)

stored_length : (g : Given) → pos 256 ≤ℤ (read_config g).max_llm_response_chars
unfolding read_config
stored_length g = ground arith

-- The configuration is accepted exactly if it is not for production, or has all that production
-- needs: the two databases, an absolute BASE_URL under https, a CSRF key of at least 32 bytes that is
-- not the default one, an encryption key of 64 bytes that are the digits of 32, and all or none of
-- the values for Stripe. In any case it holds the values of the environment and allows stored
-- answers of at least 256 bytes.
pub load_runtime_config_iff :
    (g : Given)
    → ((load_runtime_config g).0 ≡ read_config g)
      × (pos 256 ≤ℤ (read_config g).max_llm_response_chars)
      × (((load_runtime_config g).1 ≡ none)
          ↔ ((production_mode (read_config g) ≡ false) ⊎ IsSafe g (read_config g)))
unfolding load_runtime_config
load_runtime_config_iff g = elim (Bool-cases (production_mode (read_config g))) [
  | inl production ↦ (
    rw production,
    stored_length g,
    (
      rw production (λ h. inr ((check_production_iff g (read_config g)).0 h)),
      λ s. rw production (elim s [
        | inl other ↦ absurd (cc)
        | inr safe ↦ (check_production_iff g (read_config g)).1 safe
      ]),
    ),
  )
  | inr other ↦ (rw other, stored_length g, (λ h. inl other, λ h. rw other))
]

no_bytes : ¬ Has32Bytes (hex_decode [])
unfolding hex_decode
no_bytes h = omega arith

init_crypto-Has32Bytes :
    (s : String)
    → Has32Bytes (hex_decode (to_chars s))
    → (key : List ℕ) × (init_crypto s ≡ some key) × (length key ≡ 32)
unfolding init_crypto
init_crypto-Has32Bytes s h = elim (Bool-cases (s == "")) [
  | inl missing ↦
      absurd
        (no_bytes (subst (λ t. Has32Bytes (hex_decode (to_chars t))) ((eq_iff s "").0 missing) h))
  | inr given ↦ elim (Option-cases (hex_decode (to_chars s))) [
    | inl bad ↦ absurd (subst Has32Bytes bad h)
    | inr (key, good) ↦
        let full : length key ≡ 32 = subst Has32Bytes good h in
        (key, rw (given, good, (nat_eq_iff (length key) 32).1 full), full)
  ]
]

-- With a configuration for production that is accepted, the process finds its key, of 32 bytes, and
-- what it encrypts under a nonce of the full size it can decrypt. This takes of AES-GCM that it
-- accepts a key of 32 bytes, and that what is sealed opens.
pub load_runtime_config-init_crypto :
    (g : Given) (a : Gcm) (nonce plain : List ℕ)
    → ((key : List ℕ) → length key ≡ 32 → a.valid_key key ≡ true)
    → Opens a
    → length nonce ≡ a.nonce_size
    → production_mode (read_config g) ≡ true
    → (load_runtime_config g).1 ≡ none
    → (key : List ℕ) × (sealed : List ℕ) × (init_crypto (read_config g).encryption_key ≡ some key)
      × (encrypt a key (some nonce) plain ≡ some sealed)
      × (decrypt a key sealed ≡ some plain)
unfolding encrypt
load_runtime_config-init_crypto g a nonce plain takes opens sized production accepted =
    elim ((load_runtime_config_iff g).2.0 accepted) [
      | inl other ↦ absurd (cc)
      | inr safe ↦
          let (key, found, full) = init_crypto-Has32Bytes (read_config g).encryption_key safe.7 in
          (
            key,
            nonce ++ a.seal key nonce plain,
            found,
            rw (takes key full),
            decrypt-encrypt a opens key nonce plain sized (rw (takes key full)),
          )
    ]
