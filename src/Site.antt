-- ===== src/Site.antt =====
-- The state behind the pages of the portal: accounts, secrets and workspaces, with the entries of the
-- audit log, and what the handlers are given.
use gsactions_mcp.Common.{ℕ, String, Bool, Option, List, ◌∷◌}
use gsactions_mcp.Crypto.{Gcm}
use gsactions_mcp.Middleware.{Accounts}
use gsactions_mcp.Store.{Time, AuditEvent}
use gsactions_mcp.Uuid.{Uuid}

-- A row of user_secrets; UNIQUE (user_id, name).
pub record UserSecret : Type 0 where
  pub user_id : String
  pub name : String
  pub encrypted_value : List ℕ

-- db.Workspace, without its time of creation.
pub record Workspace : Type 0 where
  pub id : Uuid
  pub name : String
  pub owner_id : String

-- db.WorkspaceEnvVar; UNIQUE (workspace_id, name).
pub record WorkspaceEnvVar : Type 0 where
  pub workspace_id : Uuid
  pub name : String
  pub value : String

-- New users stand at the end of their table, all else grows at the head.
pub record Site : Type 0 where
  pub accounts : Accounts
  pub secrets : List UserSecret
  pub workspaces : List Workspace
  -- workspace_members: a workspace and a user
  pub members : List (Uuid × String)
  pub env_vars : List WorkspaceEnvVar
  pub audits : List AuditEvent

-- The statements that may fail.
pub data Statement : Type 0 where
  create_user get_auth_info_by_email create_web_session get_user_by_session : Statement
  delete_web_session update_user_api_key get_user update_user_role update_user_tier : Statement
  upsert_user_secret delete_user_secret : Statement
  create_workspace check_workspace_access upsert_workspace_env_var : Statement
  delete_workspace_env_var list_workspace_env_vars : Statement

pub record Services : Type 0 where
  pub fails : Statement → Bool
  pub now : Time
  -- strings.TrimSpace
  pub trim_space : String → String
  -- bcrypt.GenerateFromPassword and CompareHashAndPassword
  pub hash_password : String → Option String
  pub password_matches : String → String → Bool
  -- 16 bytes and a nonce from crypto/rand, if it does not fail
  pub random_key : Option (List ℕ)
  pub random_nonce : Option (List ℕ)
  -- gen_random_uuid()
  pub new_user_id : String
  pub new_session_id : Uuid
  pub new_workspace_id : Uuid
  pub gcm : Gcm
  pub encryption_key : List ℕ
  -- the bytes of a text, and the text of bytes
  pub to_bytes : String → List ℕ
  pub of_bytes : List ℕ → String

-- writeAuditLog, as in the tools; an error is only logged.
unfoldable pub audit : String → String → String → String → Site → Site
audit user action type id s = record s {
  audits =
      record { user_id = user; action = action; resource_type = type; resource_id = id } ∷ s.audits;
}
