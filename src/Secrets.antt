-- ===== src/Secrets.antt =====
-- The secrets of users: the handlers of cmd/server/api_handlers.go and the tools of
-- cmd/server/tools.go that store and delete them, encrypted, and the vault that the prompts are
-- resolved with.
pub mod Laws
use mathlib.Core.Option
use gsactions_mcp.Common.{
  ◌==◌, ℕ, Char, String, Bool, false, ◌&&◌, ◌||◌, not, Option, none, some, List, [], ◌∷◌,
  if◌then◌else◌, to_chars,
}
use gsactions_mcp.Crypto.{encrypt, decrypt}
use gsactions_mcp.Json.{get_field, as_string}
use gsactions_mcp.Middleware.{User}
use gsactions_mcp.Prompt.{Vault}
use gsactions_mcp.Site.{UserSecret, Site, upsert_user_secret, delete_user_secret, Services, audit}
use gsactions_mcp.Template.{word_char}
use gsactions_mcp.Tools.{ToolRequest, Reply, tool_result, tool_error, ◌>>=◌, ◌>>◌, require}
use gsactions_mcp.Uuid.{Uuid}

abbrev is_secret : String → String → UserSecret → Bool
is_secret user name x = x.user_id == user && x.name == name

-- INSERT ... ON CONFLICT (user_id, name) DO UPDATE
unfoldable pub put_secret : String → String → List ℕ → List UserSecret → List UserSecret
put_secret user name value [] = record { user_id = user; name = name; encrypted_value = value } ∷ []
put_secret user name value (x ∷ xs) =
    if is_secret user name x
    then record x { encrypted_value = value } ∷ xs
    else x ∷ put_secret user name value xs

unfoldable pub drop_secret : String → String → List UserSecret → List UserSecret
drop_secret user name [] = []
drop_secret user name (x ∷ xs) =
    if is_secret user name x then drop_secret user name xs else x ∷ drop_secret user name xs

unfoldable pub find_secret : String → String → List UserSecret → Option (List ℕ)
find_secret user name [] = none
find_secret user name (x ∷ xs) =
    if is_secret user name x then some x.encrypted_value else find_secret user name xs

-- UpsertUserSecret and DeleteUserSecret; `none` is an error.
unfoldable pub query_upsert_user_secret : Services → String → String → List ℕ → Site → Option Site
query_upsert_user_secret e user name value s =
    if e.fails upsert_user_secret
    then none
    else some (record s { secrets = put_secret user name value s.secrets })

unfoldable pub query_delete_user_secret : Services → String → String → Site → Option Site
query_delete_user_secret e user name s =
    if e.fails delete_user_secret
    then none
    else some (record s { secrets = drop_secret user name s.secrets })

-- Encrypt on the bytes of a text
abbrev pub encrypt_text : Services → String → Option (List ℕ)
encrypt_text e text = encrypt e.gcm e.encryption_key e.random_nonce (e.to_bytes text)

-- regexp's `^[a-zA-Z0-9_-]+$`
unfoldable pub is_secret_name : List Char → Bool
is_secret_name [] = false
is_secret_name (c ∷ []) = word_char c
is_secret_name (c ∷ d ∷ s) = word_char c && is_secret_name (d ∷ s)

pub record UpsertSecretInput : Type 0 where
  pub name : String
  pub value : String

abbrev logged : String → String → String → Option Site → Site → Site × ℕ
logged user action name none s = (s, 500)
logged user action name (some s') s = (audit user action "secret" name s', 200)

-- apiUpsertSecretHandler: the new state and the status.
unfoldable pub api_upsert_secret :
    Services → Option User → Option UpsertSecretInput → Site → Site × ℕ
api_upsert_secret e none body s = (s, 401)
api_upsert_secret e (some u) none s = (s, 400)
api_upsert_secret e (some u) (some input) s =
    if input.name == "" || input.value == ""
    then (s, 400)
    else if not (is_secret_name (to_chars input.name))
    then (s, 400)
    else elim (encrypt_text e input.value) [
      | none ↦ (s, 500)
      | some sealed ↦
          logged u.id "secret.upsert" input.name
            (query_upsert_user_secret e u.id input.name sealed s) s
    ]

-- apiDeleteSecretHandler
unfoldable pub api_delete_secret : Services → Option User → String → Site → Site × ℕ
api_delete_secret e none name s = (s, 401)
api_delete_secret e (some u) name s =
    logged u.id "secret.delete" name (query_delete_user_secret e u.id name s) s

abbrev tool_logged : String → String → String → String → Option Site → Site → Site × Reply String
tool_logged user action name message none s = (s, tool_error "db error")
tool_logged user action name message (some s') s =
    (audit user action "secret" name s', tool_result message)

unfoldable store_checked : Services → Site → Reply (String × String × List ℕ) → Site × Reply String
store_checked e s (tool_error m) = (s, tool_error m)
store_checked e s (tool_result (user, name, sealed)) =
    tool_logged user "secret.upsert" name "Secret stored successfully"
      (query_upsert_user_secret e user name sealed s) s

-- The arguments of store_secret, with the value encrypted.
unfoldable store_arguments : Services → ToolRequest → Reply (String × String × List ℕ)
store_arguments e req = do
  args ← require req.arguments "invalid arguments"
  user ← require req.user_id "unauthorized"
  name ← require (as_string (get_field "name" args)) "missing or invalid 'name'"
  value ← require (as_string (get_field "value" args)) "missing or invalid 'value'"
  sealed ← require (encrypt_text e value) "encryption error"
  tool_result (user, name, sealed)

-- the tool store_secret
unfoldable store_secret : Services → ToolRequest → Site → Site × Reply String
store_secret e req s = store_checked e s (store_arguments e req)

unfoldable delete_checked : Services → Site → Reply (String × String) → Site × Reply String
delete_checked e s (tool_error m) = (s, tool_error m)
delete_checked e s (tool_result (user, name)) =
    tool_logged user "secret.delete" name "Secret deleted successfully"
      (query_delete_user_secret e user name s) s

unfoldable delete_arguments : ToolRequest → Reply (String × String)
delete_arguments req = do
  args ← require req.arguments "invalid arguments"
  user ← require req.user_id "unauthorized"
  name ← require (as_string (get_field "name" args)) "missing or invalid 'name'"
  tool_result (user, name)

-- the tool delete_secret
unfoldable delete_secret : Services → ToolRequest → Site → Site × Reply String
delete_secret e req s = delete_checked e s (delete_arguments req)

-- What resolvePrompt reads: GetUserSecret and Decrypt. The variables of the task's workspace are given.
unfoldable pub vault_of : Services → (Uuid → Option (List (String × String))) → Site → Vault
vault_of e env_vars s = record {
  get_user_secret = λ user name. find_secret user name s.secrets;
  decrypt = λ sealed. Option.map e.of_bytes (decrypt e.gcm e.encryption_key sealed);
  get_task_workspace_env_vars = env_vars;
}
