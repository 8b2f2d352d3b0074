-- ===== src/Router/Config.antt =====
-- cmd/server/scheduler.go SwarmConfig: how json.Unmarshal reads it from the column swarm_config. Keys
-- match in any case, null leaves a field as it is, and a value of another type is an error. A column
-- that has two spellings of the key "council" is not considered.
use gsactions_mcp.Answer.{same_folded}
use gsactions_mcp.Common.{String, Bool, Option, none, some, List, [], ◌∷◌, if◌then◌else◌, to_chars}
use gsactions_mcp.Json.{Json, null, string, array, object, Items, nil, cons, Fields, end, field}

pub record SwarmAgent : Type 0 where
  pub name : String
  pub prompt : String

pub record SwarmConfig : Type 0 where
  pub consensus_mode : String
  pub supervisor_prompt : String
  pub council : List SwarmAgent

is_key : String → String → Bool
is_key name key = same_folded (to_chars key) (to_chars name)

-- The first error ends the decoding.
infixl 5 ◌>>=◌
abbrev ◌>>=◌ {ℓ κ} : {A : Type ℓ} {B : Type κ} → Option A → (A → Option B) → Option B
none >>= rest = none
some a >>= rest = rest a

text_value : Json → String → Option String
text_value (string s) acc = some s
text_value null acc = some acc
text_value _ acc = none

-- The field of type string under a name; `acc` is its value so far.
text_member : String → String → Fields → Option String
unfolding is_key text_value
text_member name acc end = some acc
text_member name acc (field k v fs) = elim (if is_key name k then text_value v acc else some acc) [
  | none ↦ none
  | some next ↦ text_member name next fs
]

agent_of : Json → Option SwarmAgent
unfolding text_member
agent_of null = some (record { name = ""; prompt = "" })
agent_of (object fs) = do
  name ← text_member "name" "" fs
  prompt ← text_member "prompt" "" fs
  some (record { name = name; prompt = prompt })
agent_of _ = none

agents_of : Items → Option (List SwarmAgent)
unfolding agent_of
agents_of nil = some []
agents_of (cons j rest) = do a ← agent_of j; as' ← agents_of rest; some (a ∷ as')

council_value : Json → List SwarmAgent → Option (List SwarmAgent)
unfolding agents_of
council_value (array items) acc = agents_of items
council_value null acc = some []
council_value _ acc = none

council_member : List SwarmAgent → Fields → Option (List SwarmAgent)
unfolding is_key council_value
council_member acc end = some acc
council_member acc (field k v fs) =
    elim (if is_key "council" k then council_value v acc else some acc) [
      | none ↦ none
      | some next ↦ council_member next fs
    ]

config_of : Fields → Option SwarmConfig
unfolding text_member council_member
config_of fs = do
  mode ← text_member "consensus_mode" "" fs
  prompt ← text_member "supervisor_prompt" "" fs
  council ← council_member [] fs
  some (record { consensus_mode = mode; supervisor_prompt = prompt; council = council })

-- json.Unmarshal(t.SwarmConfig, &swarmCfg); `none` is an error.
unfoldable pub swarm_config_of : Option Json → Option SwarmConfig
unfolding config_of
swarm_config_of none = none
swarm_config_of (some null) =
    some (record { consensus_mode = ""; supervisor_prompt = ""; council = [] })
swarm_config_of (some (object fs)) = config_of fs
swarm_config_of (some _) = none
