-- ===== src/Crypto/Laws.antt =====
-- What is encrypted can be decrypted.
use gsactions_mcp.Common.{
  ℕ, zero, suc, ◌≡◌, refl, ap, subst, inl, inr, true, false, some, List, [], ◌∷◌, ◌++◌, arith, ltb,
  Bool-cases, some-inj, none-ne-some, length, length-append, take, drop,
}
use gsactions_mcp.Crypto.{Gcm, encrypt, decrypt}

module _ {ℓ} {A : Type ℓ} where
  take_prefix : (n : ℕ) (xs ys : List A) → length xs ≡ n → take n (xs ++ ys) ≡ xs
  take_prefix zero [] ys h = refl
  take_prefix zero (x ∷ xs) ys h = absurd (omega arith)
  take_prefix (suc n) [] ys h = absurd (omega arith)
  take_prefix (suc n) (x ∷ xs) ys h = ap (λ r. x ∷ r) (take_prefix n xs ys (omega arith))

  drop_prefix : (n : ℕ) (xs ys : List A) → length xs ≡ n → drop n (xs ++ ys) ≡ ys
  drop_prefix zero [] ys h = refl
  drop_prefix zero (x ∷ xs) ys h = absurd (omega arith)
  drop_prefix (suc n) [] ys h = absurd (omega arith)
  drop_prefix (suc n) (x ∷ xs) ys h = drop_prefix n xs ys (omega arith)

-- What AES-GCM promises: what is sealed under a key and a nonce opens under them.
abbrev pub Opens : Gcm → Type 0
Opens g =
    (key nonce plain : List ℕ)
    → g.valid_key key ≡ true
    → g.open_sealed key nonce (g.seal key nonce plain) ≡ some plain

module _ (g : Gcm) (opens : Opens g) (key nonce plain : List ℕ) where
  decrypt_sealed :
      g.valid_key key ≡ true
      → length nonce ≡ g.nonce_size
      → decrypt g key (nonce ++ g.seal key nonce plain) ≡ some plain
  unfolding decrypt
  decrypt_sealed valid full =
      let long : ltb (length (nonce ++ g.seal key nonce plain)) g.nonce_size ≡ false =
        rw (length-append nonce (g.seal key nonce plain)) (ground (arith, full)) in
      rw
        (
          valid,
          long,
          take_prefix g.nonce_size nonce (g.seal key nonce plain) full,
          drop_prefix g.nonce_size nonce (g.seal key nonce plain) full,
        )
        (opens key nonce plain valid)

  -- Whatever was encrypted under a nonce of the full size is what decryption gives back.
  pub decrypt-encrypt :
      {sealed : List ℕ}
      → length nonce ≡ g.nonce_size
      → encrypt g key (some nonce) plain ≡ some sealed
      → decrypt g key sealed ≡ some plain
  unfolding encrypt
  decrypt-encrypt {sealed} full made = elim (Bool-cases (g.valid_key key)) [
    | inl valid ↦
        subst (λ s. decrypt g key s ≡ some plain) (some-inj (rw valid at made))
          (decrypt_sealed valid full)
    | inr bad ↦ absurd (none-ne-some (rw bad at made))
  ]
