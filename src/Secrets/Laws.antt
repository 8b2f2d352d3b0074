-- ===== src/Secrets/Laws.antt =====
-- Secrets from the handlers to the prompts.
use gsactions_mcp.Common.{
  ◌==◌, eq_iff, eq_refl, ℕ, Char, String, ◌≡◌, refl, ap, ◌∙◌, inl, inr, Bool, false, ◌&&◌, Option,
  none, some, List, [], ◌∷◌, ◌++◌, arith, if◌then◌else◌, Option-cases, length, to_chars, from_chars,
}
use gsactions_mcp.Crypto.{decrypt}
use gsactions_mcp.Crypto.Laws.{Opens, decrypt-encrypt}
use gsactions_mcp.Middleware.{User}
use gsactions_mcp.Prompt.{secret_value}
use gsactions_mcp.Secrets.{
  put_secret, drop_secret, find_secret, query_upsert_user_secret, query_delete_user_secret,
  encrypt_text, UpsertSecretInput, api_upsert_secret, api_delete_secret, vault_of,
}
use gsactions_mcp.Site.{UserSecret, Site, Services, audit}
use gsactions_mcp.Uuid.{Uuid}

module _ (user name other_user other_name : String) where
  abbrev same_key : Bool
  same_key = user == other_user && name == other_name

  find_secret-put_secret :
      (value : List ℕ) (xs : List UserSecret)
      → find_secret other_user other_name (put_secret user name value xs)
        ≡ (if same_key then some value else find_secret other_user other_name xs)
  unfolding find_secret put_secret
  find_secret-put_secret value [] = ground arith
  find_secret-put_secret value (x ∷ xs) = ground (
    arith,
    find_secret-put_secret value xs,
    eq_iff user other_user,
    eq_iff name other_name,
    eq_iff x.user_id user,
    eq_iff x.name name,
    eq_iff x.user_id other_user,
    eq_iff x.name other_name,
  )

  find_secret-drop_secret :
      (xs : List UserSecret)
      → find_secret other_user other_name (drop_secret user name xs)
        ≡ (if same_key then none else find_secret other_user other_name xs)
  unfolding find_secret drop_secret
  find_secret-drop_secret [] = ground arith
  find_secret-drop_secret (x ∷ xs) = ground (
    arith,
    find_secret-drop_secret xs,
    eq_iff user other_user,
    eq_iff name other_name,
    eq_iff x.user_id user,
    eq_iff x.name name,
    eq_iff x.user_id other_user,
    eq_iff x.name other_name,
  )

-- A stored secret: what an upsert that is answered with 200 has put into the table.
stored_secret :
    (e : Services) (u : User) (input : UpsertSecretInput) (s : Site)
    → (api_upsert_secret e (some u) (some input) s).1 ≡ 200
    → (sealed : List ℕ) × (encrypt_text e input.value ≡ some sealed)
      × ((api_upsert_secret e (some u) (some input) s).0.secrets
          ≡ put_secret u.id input.name sealed s.secrets)
unfolding api_upsert_secret query_upsert_user_secret audit
stored_secret e u input s ok = elim (Option-cases (encrypt_text e input.value)) [
  | inl broken ↦ absurd (ground (arith, ok, broken))
  | inr (sealed, made) ↦ (sealed, made, ground (arith, ok, made))
]

from_chars-to_chars : (s : String) → from_chars (to_chars s) ≡ s
from_chars-to_chars String.[] = refl
from_chars-to_chars (String.◌∷◌ c s) = ap (λ r. String.◌∷◌ c r) (from_chars-to_chars s)

module _ (e : Services) (env_vars : Uuid → Option (List (String × String))) (user : String) where
  abbrev pub value_in : Site → String → List Char
  value_in s name = secret_value (vault_of e env_vars s) user (to_chars name)

  value_found :
      (s : Site) (name : String) {sealed plain : List ℕ}
      → find_secret user name s.secrets ≡ some sealed
      → decrypt e.gcm e.encryption_key sealed ≡ some plain
      → value_in s name ≡ to_chars (e.of_bytes plain)
  unfolding secret_value vault_of
  value_found s name found opened =
      rw (from_chars-to_chars name, found, secret_value) (rw (opened) refl)

  value_missing :
      (s : Site) (name : String)
      → find_secret user name s.secrets ≡ none
      → value_in s name ≡ to_chars "[SECRET " ++ (to_chars name ++ to_chars " NOT FOUND]")
  unfolding secret_value vault_of
  value_missing s name missing = rw (from_chars-to_chars name, missing, secret_value) refl

  value_same :
      (s t : Site) (name : String)
      → find_secret user name s.secrets ≡ find_secret user name t.secrets
      → value_in s name ≡ value_in t name
  unfolding secret_value vault_of
  value_same s t name same = rw (from_chars-to_chars name, same, secret_value) refl

-- A secret that was stored with the answer 200 is what a placeholder with its name stands for in the
-- user's prompts, and every other secret, of this user or another, stands for what it did. This takes
-- of AES-GCM that what is sealed opens, of the random source a nonce of the full size, and of the text
-- that it comes back from its bytes.
pub api_upsert_secret-secret_value :
    (e : Services) (env_vars : Uuid → Option (List (String × String))) (u : User)
    (input : UpsertSecretInput) (s : Site) (nonce : List ℕ) (other_user other_name : String)
    → Opens e.gcm
    → e.random_nonce ≡ some nonce
    → length nonce ≡ e.gcm.nonce_size
    → e.of_bytes (e.to_bytes input.value) ≡ input.value
    → (api_upsert_secret e (some u) (some input) s).1 ≡ 200
    → (u.id == other_user && input.name == other_name) ≡ false
    → (value_in e env_vars u.id (api_upsert_secret e (some u) (some input) s).0 input.name
        ≡ to_chars input.value)
      × (value_in e env_vars other_user (api_upsert_secret e (some u) (some input) s).0 other_name
          ≡ value_in e env_vars other_user s other_name)
api_upsert_secret-secret_value e env_vars u input s nonce other_user other_name opens drawn full
      texts ok apart =
    let (sealed, made, kept) = stored_secret e u input s ok in
    let after = (api_upsert_secret e (some u) (some input) s).0 in
    (
      value_found e env_vars u.id after input.name {sealed = sealed}
            {plain = e.to_bytes input.value}
            (ap (find_secret u.id input.name) kept
              ∙ find_secret-put_secret u.id input.name u.id input.name sealed s.secrets
              ∙ ground (arith, eq_refl u.id, eq_refl input.name))
            (decrypt-encrypt e.gcm opens e.encryption_key nonce (e.to_bytes input.value) full
              (rw drawn at made))
          ∙ ap to_chars texts,
      value_same e env_vars other_user after s other_name (
          ap (find_secret other_user other_name) kept
          ∙ find_secret-put_secret u.id input.name other_user other_name sealed s.secrets
          ∙ rw apart refl),
    )

-- A secret that was deleted with the answer 200 is not found by the prompts, and every other secret
-- stands for what it did.
api_delete_secret-secret_value :
    (e : Services) (env_vars : Uuid → Option (List (String × String))) (u : User) (name : String)
    (s : Site) (other_user other_name : String)
    → (api_delete_secret e (some u) name s).1 ≡ 200
    → (u.id == other_user && name == other_name) ≡ false
    → (value_in e env_vars u.id (api_delete_secret e (some u) name s).0 name
        ≡ to_chars "[SECRET " ++ (to_chars name ++ to_chars " NOT FOUND]"))
      × (value_in e env_vars other_user (api_delete_secret e (some u) name s).0 other_name
          ≡ value_in e env_vars other_user s other_name)
unfolding api_delete_secret query_delete_user_secret audit
api_delete_secret-secret_value e env_vars u name s other_user other_name ok apart =
    let after = (api_delete_secret e (some u) name s).0 in
    let kept : after.secrets ≡ drop_secret u.id name s.secrets = ground (arith, ok) in
    (
      value_missing e env_vars u.id after name (
          ap (find_secret u.id name) kept
          ∙ find_secret-drop_secret u.id name u.id name s.secrets
          ∙ ground (arith, eq_refl u.id, eq_refl name)),
      value_same e env_vars other_user after s other_name (
          ap (find_secret other_user other_name) kept
          ∙ find_secret-drop_secret u.id name other_user other_name s.secrets
          ∙ rw apart refl),
    )
