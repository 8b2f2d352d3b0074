-- ===== src/Workspaces.antt =====
-- cmd/server/workspace_handlers.go: workspaces and the variables in them. A handler gives the new state
-- and the status that it writes; the user is the text of getUserID.
pub mod Laws
use gsactions_mcp.Common.{
  ◌==◌, ℕ, String, Bool, true, false, ◌&&◌, ◌||◌, not, Option, none, some, List, [], ◌∷◌,
  if◌then◌else◌, any,
}
use gsactions_mcp.Site.{
  WorkspaceEnvVar, Site, create_workspace, check_workspace_access, upsert_workspace_env_var,
  delete_workspace_env_var, list_workspace_env_vars, Services,
}
use gsactions_mcp.Uuid.{Uuid, uuid_eq, parse_uuid}

-- Is the user a member?
unfoldable pub is_member : Uuid → String → List (Uuid × String) → Bool
is_member id user [] = false
is_member id user ((w, u) ∷ ms) = uuid_eq w id && u == user || is_member id user ms

-- CheckWorkspaceAccess; `none` is an error.
unfoldable pub query_check_workspace_access : Services → Uuid → String → Site → Option Bool
query_check_workspace_access e id user s =
    if e.fails check_workspace_access
    then none
    else some (
        any (λ w. uuid_eq w.id id && (w.owner_id == user || is_member id user s.members))
          s.workspaces)

-- `err != nil || !hasAccess`
unfoldable pub denied : Option Bool → Bool
denied none = true
denied (some access) = not access

-- CreateWorkspace; `none` is an error.
unfoldable query_create_workspace : Services → String → String → Site → Option Site
query_create_workspace e name owner s =
    if e.fails create_workspace
    then none
    else some (record s {
      workspaces = record { id = e.new_workspace_id; name = name; owner_id = owner } ∷ s.workspaces;
    })

abbrev is_var : Uuid → String → WorkspaceEnvVar → Bool
is_var id name v = uuid_eq v.workspace_id id && v.name == name

-- INSERT ... ON CONFLICT (workspace_id, name) DO UPDATE
unfoldable pub put_var : Uuid → String → String → List WorkspaceEnvVar → List WorkspaceEnvVar
put_var id name value [] = record { workspace_id = id; name = name; value = value } ∷ []
put_var id name value (v ∷ vs) =
    if is_var id name v then record v { value = value } ∷ vs else v ∷ put_var id name value vs

unfoldable pub drop_var : Uuid → String → List WorkspaceEnvVar → List WorkspaceEnvVar
drop_var id name [] = []
drop_var id name (v ∷ vs) =
    if is_var id name v then drop_var id name vs else v ∷ drop_var id name vs

-- ListWorkspaceEnvVars, without its order by name
unfoldable pub list_vars : Uuid → List WorkspaceEnvVar → List (String × String)
list_vars id [] = []
list_vars id (v ∷ vs) =
    if uuid_eq v.workspace_id id then (v.name, v.value) ∷ list_vars id vs else list_vars id vs

unfoldable pub query_upsert_workspace_env_var :
    Services → Uuid → String → String → Site → Option Site
query_upsert_workspace_env_var e id name value s =
    if e.fails upsert_workspace_env_var
    then none
    else some (record s { env_vars = put_var id name value s.env_vars })

unfoldable pub query_delete_workspace_env_var : Services → Uuid → String → Site → Option Site
query_delete_workspace_env_var e id name s =
    if e.fails delete_workspace_env_var
    then none
    else some (record s { env_vars = drop_var id name s.env_vars })

abbrev done : ℕ → Option Site → Site → Site × ℕ
done status none s = (s, 500)
done status (some s') s = (s', status)

-- handleCreateWorkspace, for the name in the body
unfoldable handle_create_workspace : Services → String → Option String → Site → Site × ℕ
handle_create_workspace e user body s = if user == "" then (s, 401) else elim body [
  | none ↦ (s, 400)
  | some name ↦ if name == "" then (s, 400) else done 201 (query_create_workspace e name user s) s
]

pub record EnvVarInput : Type 0 where
  pub name : String
  pub value : String

-- handleUpsertWorkspaceEnvVar
unfoldable pub handle_upsert_workspace_env_var :
    Services → String → String → Option EnvVarInput → Site → Site × ℕ
handle_upsert_workspace_env_var e user text body s = elim (parse_uuid text) [
  | none ↦ (s, 400)
  | some id ↦
      if user == ""
      then (s, 401)
      else if denied (query_check_workspace_access e id user s)
      then (s, 403)
      else elim body [
        | none ↦ (s, 400)
        | some input ↦
            if input.name == ""
            then (s, 400)
            else done 200 (query_upsert_workspace_env_var e id input.name input.value s) s
      ]
]

-- handleDeleteWorkspaceEnvVar
unfoldable pub handle_delete_workspace_env_var :
    Services → String → String → String → Site → Site × ℕ
handle_delete_workspace_env_var e user text name s = elim (parse_uuid text) [
  | none ↦ (s, 400)
  | some id ↦
      if name == ""
      then (s, 400)
      else if user == ""
      then (s, 401)
      else if denied (query_check_workspace_access e id user s)
      then (s, 403)
      else done 200 (query_delete_workspace_env_var e id name s) s
]

-- handleListWorkspaceEnvVars: the status, and the variables.
unfoldable handle_list_workspace_env_vars :
    Services → String → String → Site → ℕ × List (String × String)
handle_list_workspace_env_vars e user text s = elim (parse_uuid text) [
  | none ↦ (400, [])
  | some id ↦
      if user == ""
      then (401, [])
      else if denied (query_check_workspace_access e id user s)
      then (403, [])
      else if e.fails list_workspace_env_vars
      then (500, [])
      else (200, list_vars id s.env_vars)
]
