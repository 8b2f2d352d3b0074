-- ===== src/Config/Trusted.antt =====
-- What csrfTrustedOrigins gives.
use gsactions_mcp.Common.{
  ◌==◌, eq_iff, ℕ, suc, String, ◌≡◌, refl, ◌∙◌, ◌≢◌, Bool, false, ◌||◌, some, List, [], ◌∷◌, ◌++◌,
  arith, if◌then◌else◌, any,
}
use gsactions_mcp.Config.{Url, Given, RuntimeConfig}
use gsactions_mcp.Config.Origins.{
  trim_suffix, both, default_origins, base_origins, origins, clean_origin, without_duplicates,
  csrf_trusted_origins,
}

-- How often a text is in a list.
abbrev pub occurrences : String → List String → ℕ
occurrences x [] = 0
occurrences x (a ∷ xs) = if a == x then suc (occurrences x xs) else occurrences x xs

abbrev pub among : String → List String → Bool
among x = any (λ a. a == x)

module _ (g : Given) where
  -- Is a text the cleaned form of one of these origins?
  abbrev pub cleaned_from : List String → String → Bool
  cleaned_from os x = any (λ o. clean_origin g o == x) os

  occurrences-without_duplicates :
      (x : String) (unique os : List String)
      → occurrences x (without_duplicates g unique os)
        ≡ (if x == "" || among x unique then 0 else if cleaned_from os x then 1 else 0)
  unfolding without_duplicates
  occurrences-without_duplicates x unique [] = ground arith
  occurrences-without_duplicates x unique (o ∷ os) = ground (
    arith,
    occurrences-without_duplicates x unique os,
    occurrences-without_duplicates x (clean_origin g o ∷ unique) os,
    eq_iff (clean_origin g o) x,
    eq_iff (clean_origin g o) "",
    eq_iff x "",
  )

  -- Each origin that is put together is trusted once, in its cleaned form, unless that is empty.
  csrf_trusted_origins_once :
      (c : RuntimeConfig) (x : String)
      → occurrences x (csrf_trusted_origins g c)
        ≡ (if x == "" then 0 else if cleaned_from (origins g c) x then 1 else 0)
  unfolding csrf_trusted_origins
  csrf_trusted_origins_once c x = ground (arith, occurrences-without_duplicates x [] (origins g c))

  base_origins-named :
      (c : RuntimeConfig) (u : Url)
      → c.local_dev ≡ false
      → c.base_url ≢ ""
      → g.parse_url c.base_url ≡ some u
      → u.host ≢ ""
      → base_origins g c ≡ trim_suffix c.base_url ∷ (both u.host ++ both u.hostname)
  unfolding base_origins
  base_origins-named c u deployed set parsed named =
      ground (arith, eq_iff c.base_url "", eq_iff u.host "")

  -- Outside local development and with nothing in CSRF_TRUSTED_ORIGINS, what is trusted is, each once
  -- and in cleaned form: the eight origins of localhost and 127.0.0.1, BASE_URL without the slash at
  -- its end, and its host, with and without the port, under http and https; and nothing else. This is
  -- for a BASE_URL that names a host.
  pub csrf_trusted_origins_deployed :
      (c : RuntimeConfig) (u : Url) (x : String)
      → c.local_dev ≡ false
      → g.getenv "CSRF_TRUSTED_ORIGINS" ≡ ""
      → c.base_url ≢ ""
      → g.parse_url c.base_url ≡ some u
      → u.host ≢ ""
      → x ≢ ""
      → occurrences x (csrf_trusted_origins g c) ≡ (
          if cleaned_from
            (default_origins ++ trim_suffix c.base_url ∷ (both u.host ++ both u.hostname))
            x
          then 1
          else 0)
  unfolding origins
  csrf_trusted_origins_deployed c u x deployed nothing set parsed named full =
      let full_set : (x == "") ≡ false = ground (arith, eq_iff x "") in
      csrf_trusted_origins_once c x
      ∙ rw (full_set, base_origins-named c u deployed set parsed named)
          (rw (deployed, nothing) refl)
