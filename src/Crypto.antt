-- ===== src/Crypto.antt =====
-- cmd/server/crypto.go: the key of the process, and the encryption of values under it. AES-GCM and
-- the random source are the library's.
pub mod Laws
use gsactions_mcp.Common.{
  ◌==◌, ℕ, String, Bool, Option, none, some, List, ◌++◌, ltb, nat_eq, if◌then◌else◌, length, take,
  drop, to_chars,
}
use gsactions_mcp.Uuid.{hex_decode}

pub record Gcm : Type 0 where
  -- does aes.NewCipher take the key?
  pub valid_key : List ℕ → Bool
  pub nonce_size : ℕ
  -- gcm.Seal and gcm.Open under a key and a nonce, with no additional data
  pub seal : List ℕ → List ℕ → List ℕ → List ℕ
  pub open_sealed : List ℕ → List ℕ → List ℕ → Option (List ℕ)

-- initCrypto: the key from ENCRYPTION_KEY; `none` where the process ends.
unfoldable pub init_crypto : String → Option (List ℕ)
init_crypto key_hex = if key_hex == "" then none else elim (hex_decode (to_chars key_hex)) [
  | none ↦ none
  | some key ↦ if nat_eq (length key) 32 then some key else none
]

-- Encrypt, with what the random source gives for the nonce, if it does not fail.
unfoldable pub encrypt : Gcm → List ℕ → Option (List ℕ) → List ℕ → Option (List ℕ)
encrypt g key random plaintext =
    if g.valid_key key
    then elim random [ none ↦ none | some nonce ↦ some (nonce ++ g.seal key nonce plaintext) ]
    else none

unfoldable pub decrypt : Gcm → List ℕ → List ℕ → Option (List ℕ)
decrypt g key ciphertext =
    if g.valid_key key
    then if ltb (length ciphertext) g.nonce_size
      then none
      else g.open_sealed key (take g.nonce_size ciphertext) (drop g.nonce_size ciphertext)
    else none
