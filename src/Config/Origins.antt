-- ===== src/Config/Origins.antt =====
-- cmd/server/config.go: the origins that the check against request forgery trusts.
use gsactions_mcp.Common.{
  ◌==◌, Char, code, String, ◌<>◌, ◌&&◌, not, Option, none, some, List, [], ◌∷◌, ◌++◌, nat_eq,
  if◌then◌else◌, any, to_chars, from_chars,
}
use gsactions_mcp.Conditions.{contains}
use gsactions_mcp.Config.{Given, RuntimeConfig}

-- strings.Split(s, ","), from the text read so far.
unfoldable pub split_from : String → String → List String
split_from cur String.[] = cur ∷ []
split_from cur (String.◌∷◌ c s) =
    let closed = cur ∷ split_from "" s in
    let longer = split_from (cur <> String.◌∷◌ c String.[]) s in
    if nat_eq (code c) b',' then closed else longer

-- strings.TrimSuffix(s, "/")
unfoldable pub trim_slash : List Char → List Char
trim_slash [] = []
trim_slash (c ∷ []) = if nat_eq (code c) b'/' then [] else c ∷ []
trim_slash (c ∷ d ∷ s) = c ∷ trim_slash (d ∷ s)

abbrev pub trim_suffix : String → String
trim_suffix s = from_chars (trim_slash (to_chars s))

-- A host under both schemes.
abbrev pub both : String → List String
both host = ("http://" <> host) ∷ ("https://" <> host) ∷ []

abbrev at_port : String → String → String
at_port host port = host <> (":" <> port)

unfoldable pub at_ports : String → List String → List String
at_ports host [] = []
at_ports host (p ∷ ports) = both (at_port host p) ++ at_ports host ports

unfoldable pub address_origins : List String → List String → List String
address_origins ports [] = []
address_origins ports (ip ∷ ips) = both ip ++ (at_ports ip ports ++ address_origins ports ips)

unfoldable pub loopback_origins : List String → List String
loopback_origins [] = []
loopback_origins (p ∷ ports) =
    both (at_port "localhost" p)
    ++ (both (at_port "127.0.0.1" p) ++ (both (at_port "[::1]" p) ++ loopback_origins ports))

abbrev pub default_origins : List String
default_origins =
    both "localhost:8080" ++ (both "127.0.0.1:8080" ++ (both "localhost" ++ both "127.0.0.1"))

abbrev common_ips : List String
common_ips = "192.168.0.26" ∷ "192.168.1.1" ∷ "10.0.0.1" ∷ "172.17.0.1" ∷ "172.18.0.1" ∷ []

abbrev known_ips : Option (List String) → List String
known_ips none = []
known_ips (some ips) = ips

module _ (g : Given) where
  abbrev port_of : String
  port_of = if g.getenv "PORT" == "" then "8080" else g.getenv "PORT"

  abbrev dev_ports : List String
  dev_ports = port_of ∷ "5173" ∷ "3000" ∷ "3001" ∷ []

  -- What only a local development adds.
  unfoldable pub dev_origins : List String
  dev_origins =
      address_origins dev_ports (known_ips g.local_ips)
      ++ (loopback_origins dev_ports ++ address_origins dev_ports common_ips)

  -- One entry of CSRF_TRUSTED_ORIGINS.
  unfoldable pub extra_origin : String → List String
  extra_origin o =
      if o == ""
      then []
      else if not (contains o "://")
      then both o ++ (if not (contains o ":") then both (at_port o port_of) else [])
      else o ∷ []

  unfoldable pub extra_origins : List String → List String
  extra_origins [] = []
  extra_origins (o ∷ os) = extra_origin (g.trim_space o) ++ extra_origins os

  -- What BASE_URL adds.
  unfoldable pub base_origins : RuntimeConfig → List String
  base_origins c = if c.base_url == "" then [] else elim (g.parse_url c.base_url) [
    | none ↦ []
    | some u ↦
        if u.host == ""
        then []
        else trim_suffix c.base_url
          ∷ (both u.host
              ++ (both u.hostname
                  ++ (if c.local_dev then both (at_port u.hostname port_of) else [])))
  ]

  -- All the origins, in the order in which they are put together.
  unfoldable pub origins : RuntimeConfig → List String
  origins c =
      default_origins
      ++ ((if c.local_dev then dev_origins else [])
          ++ ((if g.getenv "CSRF_TRUSTED_ORIGINS" == ""
                then []
                else extra_origins (split_from "" (g.getenv "CSRF_TRUSTED_ORIGINS")))
              ++ base_origins c))

  abbrev pub clean_origin : String → String
  clean_origin o = g.to_lower (g.trim_space (trim_suffix o))

  -- The last loop: the result, where `unique` holds what it has already.
  unfoldable pub without_duplicates : List String → List String → List String
  without_duplicates unique [] = []
  without_duplicates unique (o ∷ os) =
      let o' = clean_origin o in
      let kept = o' ∷ without_duplicates (o' ∷ unique) os in
      let skipped = without_duplicates unique os in
      if not (o' == "") && not (any (λ a. a == o') unique) then kept else skipped

  unfoldable pub csrf_trusted_origins : RuntimeConfig → List String
  csrf_trusted_origins c = without_duplicates [] (origins c)
