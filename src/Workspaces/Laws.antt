-- ===== src/Workspaces/Laws.antt =====
-- Who changes the variables of a workspace.
use gsactions_mcp.Common.{
  ◌==◌, eq_iff, String, ◌≡◌, refl, ◌⊎◌, inl, inr, Bool, true, false, ◌&&◌, ◌||◌, Option, none, some,
  List, [], ◌∷◌, Memᴰ, arith, Bool-cases, any,
}
use gsactions_mcp.Site.{Workspace, WorkspaceEnvVar, Site, check_workspace_access, Services}
use gsactions_mcp.Store.Laws.{uuid_eq_refl, uuid_eq→eq}
use gsactions_mcp.Uuid.{Uuid, uuid_eq, parse_uuid}
use gsactions_mcp.Workspaces.{
  is_member, query_check_workspace_access, denied, put_var, drop_var, list_vars,
  query_upsert_workspace_env_var, query_delete_workspace_env_var, EnvVarInput,
  handle_upsert_workspace_env_var, handle_delete_workspace_env_var,
}

-- A workspace of the table has this id, and the user owns it or is a member of it.
abbrev HasAccess : Uuid → String → Site → Type 0
HasAccess id user s =
    (w : Workspace) × Memᴰ w s.workspaces
    × (w.id ≡ id)
    × ((w.owner_id ≡ user) ⊎ (is_member id user s.members ≡ true))

access_found :
    (id : Uuid) (user : String) (member : Bool) (ws : List Workspace)
    → any (λ w. uuid_eq w.id id && (w.owner_id == user || member)) ws ≡ true
    → (w : Workspace) × Memᴰ w ws × (w.id ≡ id) × ((w.owner_id ≡ user) ⊎ (member ≡ true))
access_found id user member [] h = cc
access_found id user member (w ∷ ws) h =
    elim (Bool-cases (uuid_eq w.id id && (w.owner_id == user || member))) [
      | inl here ↦ (
        w,
        Memᴰ.head refl,
        ground (arith, here, uuid_eq→eq w.id id),
        ground (arith, here, eq_iff w.owner_id user),
      )
      | inr not_here ↦
          let (x, there, same, access) =
            access_found id user member ws (ground (arith, h, not_here)) in
          (x, Memᴰ.tail there, same, access)
    ]

list-put_other :
    (id other : Uuid) (name value : String) (vs : List WorkspaceEnvVar)
    → uuid_eq id other ≡ false
    → list_vars other (put_var id name value vs) ≡ list_vars other vs
unfolding list_vars put_var
list-put_other id other name value [] apart = ground (arith, apart)
list-put_other id other name value (v ∷ vs) apart = ground (
  arith,
  apart,
  uuid_eq→eq v.workspace_id id,
  uuid_eq→eq v.workspace_id other,
  uuid_eq_refl id,
  list-put_other id other name value vs apart,
)

list-drop_other :
    (id other : Uuid) (name : String) (vs : List WorkspaceEnvVar)
    → uuid_eq id other ≡ false
    → list_vars other (drop_var id name vs) ≡ list_vars other vs
unfolding list_vars drop_var
list-drop_other id other name [] apart = ground (arith, apart)
list-drop_other id other name (v ∷ vs) apart = ground (
  arith,
  apart,
  uuid_eq→eq v.workspace_id id,
  uuid_eq→eq v.workspace_id other,
  uuid_eq_refl id,
  list-drop_other id other name vs apart,
)

access_granted :
    (e : Services) (id : Uuid) (user : String) (s : Site)
    → denied (query_check_workspace_access e id user s) ≡ false
    → HasAccess id user s
unfolding denied query_check_workspace_access
access_granted e id user s granted = elim (Bool-cases (e.fails check_workspace_access)) [
  | inl broken ↦ absurd (ground (arith, granted, broken))
  | inr fine ↦
      access_found id user (is_member id user s.members) s.workspaces
        (ground (arith, granted, fine))
]

-- What a request about one workspace may do to the variables: it leaves those of another workspace
-- alone, and if it changes any, the user has access to the workspace.
abbrev pub IsGuarded : Uuid → Uuid → String → Site → Site → Type 0
IsGuarded id other user before after =
    ((after.env_vars ≡ before.env_vars) ⊎ HasAccess id user before)
    × (list_vars other after.env_vars ≡ list_vars other before.env_vars)

module _ (e : Services) (user text : String) (s : Site) (id other : Uuid)
    (parsed : parse_uuid text ≡ some id) (apart : uuid_eq id other ≡ false) where
  upsert-IsGuarded :
      (body : Option EnvVarInput)
      → IsGuarded id other user s (handle_upsert_workspace_env_var e user text body s).0
  unfolding handle_upsert_workspace_env_var query_upsert_workspace_env_var
  upsert-IsGuarded none = elim (Bool-cases (denied (query_check_workspace_access e id user s))) [
    | inl shut ↦ (inl (ground (arith, parsed, shut)), ground (arith, parsed, shut))
    | inr granted ↦ (inl (ground (arith, parsed, granted)), ground (arith, parsed, granted))
  ]
  upsert-IsGuarded (some input) =
      elim (Bool-cases (denied (query_check_workspace_access e id user s))) [
        | inl shut ↦ (inl (ground (arith, parsed, shut)), ground (arith, parsed, shut))
        | inr granted ↦ (
          inr (access_granted e id user s granted),
          ground (
            arith,
            parsed,
            granted,
            list-put_other id other input.name input.value s.env_vars apart,
          ),
        )
      ]

  delete-IsGuarded :
      (name : String)
      → IsGuarded id other user s (handle_delete_workspace_env_var e user text name s).0
  unfolding handle_delete_workspace_env_var query_delete_workspace_env_var
  delete-IsGuarded name = elim (Bool-cases (denied (query_check_workspace_access e id user s))) [
    | inl shut ↦ (inl (ground (arith, parsed, shut)), ground (arith, parsed, shut))
    | inr granted ↦ (
      inr (access_granted e id user s granted),
      ground (arith, parsed, granted, list-drop_other id other name s.env_vars apart),
    )
  ]

  -- A request to set or to delete a variable of a workspace leaves the variables of every other
  -- workspace alone, and changes any only if its user owns the workspace or is a member of it.
  pub workspace_handlers-IsGuarded :
      (body : Option EnvVarInput) (name : String)
      → IsGuarded id other user s (handle_upsert_workspace_env_var e user text body s).0
        × IsGuarded id other user s (handle_delete_workspace_env_var e user text name s).0
  workspace_handlers-IsGuarded body name = (upsert-IsGuarded body, delete-IsGuarded name)
