-- ===== src/Uuid/RoundTrip.antt =====
-- What parseUUID and formatUUID promise each other.
use gsactions_mcp.Common.{
  ℕ, zero, suc, ◌+◌, ◌*◌, ◌/◌, ◌%◌, ◌<◌, Char, code, String, ◌≡◌, refl, ap, ap₂, subst, ◌∙◌, inl,
  inr, false, Option, none, some, List, [], ◌∷◌, ◌++◌, arith, nat_eq, nat_eq_iff, Bool-cases,
  some-inj, none-ne-some, length, All, take, drop, take-append-drop, drop-drop, to_chars,
  to_chars-from_chars,
}
use gsactions_mcp.Uuid.{
  Uuid, dash, hex_char, hex_value, hex_encode, join_byte, hex_decode, strip_dashes, format_chars,
  format_uuid, parse_uuid,
}

-- A well-formed value: 16 bytes.
abbrev pub IsUuid : Uuid → Type 0
IsUuid id = (length id ≡ 16) × All (λ b. b < 256) id

-- A property of the numbers from 0 up to a bound.
abbrev UpTo : (ℕ → Type 0) → ℕ → Type 0
UpTo P zero = Unit
UpTo P (suc n) = P n × UpTo P n

UpTo-lookup : (P : ℕ → Type 0) (n x : ℕ) → UpTo P n → x < n → P x
UpTo-lookup P zero x all h = absurd (omega arith)
UpTo-lookup P (suc n) x (last, rest) h = elim (Bool-cases (nat_eq n x)) [
  | inl e ↦ subst P ((nat_eq_iff n x).0 e) last
  | inr ne ↦ UpTo-lookup P n x rest (ground arith)
]

nibbles : UpTo (λ n. hex_value (hex_char n) ≡ some n) 16
unfolding hex_value hex_char
nibbles = (
  refl,
  (
    refl,
    (
      refl,
      (
        refl,
        (
          refl,
          (
            refl,
            (refl, (refl, (refl, (refl, (refl, (refl, (refl, (refl, (refl, (refl, tt)))))))))),
          ),
        ),
      ),
    ),
  ),
)

pub hex_value-hex_char : (n : ℕ) → n < 16 → hex_value (hex_char n) ≡ some n
hex_value-hex_char n h = UpTo-lookup (λ n. hex_value (hex_char n) ≡ some n) 16 n nibbles h

no_dashes : UpTo (λ n. nat_eq (code (hex_char n)) b'-' ≡ false) 16
unfolding hex_char
no_dashes = (
  refl,
  (
    refl,
    (
      refl,
      (
        refl,
        (
          refl,
          (
            refl,
            (refl, (refl, (refl, (refl, (refl, (refl, (refl, (refl, (refl, (refl, tt)))))))))),
          ),
        ),
      ),
    ),
  ),
)

hex_char-ne-dash : (n : ℕ) → n < 16 → nat_eq (code (hex_char n)) b'-' ≡ false
hex_char-ne-dash n h = UpTo-lookup (λ n. nat_eq (code (hex_char n)) b'-' ≡ false) 16 n no_dashes h

hex_decode-hex_encode : (bs : List ℕ) → All (λ b. b < 256) bs → hex_decode (hex_encode bs) ≡ some bs
unfolding hex_decode hex_encode
hex_decode-hex_encode [] h = refl
hex_decode-hex_encode (b ∷ bs) (hb, hbs) =
    rw (hex_value-hex_char (b / 16) (omega arith), hex_value-hex_char (b % 16) (omega arith))
      (rw (hex_decode-hex_encode bs hbs) (ap (λ n. some (n ∷ bs)) (omega arith)))

strip_dashes-append : (s t : List Char) → strip_dashes (s ++ t) ≡ strip_dashes s ++ strip_dashes t
unfolding strip_dashes
strip_dashes-append [] t = refl
strip_dashes-append (c ∷ s) t = ground (arith, strip_dashes-append s t)

strip_dashes-hex_encode :
    (bs : List ℕ) → All (λ b. b < 256) bs → strip_dashes (hex_encode bs) ≡ hex_encode bs
unfolding strip_dashes hex_encode
strip_dashes-hex_encode [] h = refl
strip_dashes-hex_encode (b ∷ bs) (hb, hbs) =
    rw (hex_char-ne-dash (b / 16) (omega arith), hex_char-ne-dash (b % 16) (omega arith))
      (rw (strip_dashes-hex_encode bs hbs))

hex_encode-append : (xs ys : List ℕ) → hex_encode (xs ++ ys) ≡ hex_encode xs ++ hex_encode ys
unfolding hex_encode
hex_encode-append [] ys = refl
hex_encode-append (b ∷ xs) ys = rw (hex_encode-append xs ys)

length-hex_encode : (bs : List ℕ) → length (hex_encode bs) ≡ 2 * length bs
unfolding hex_encode
length-hex_encode [] = refl
length-hex_encode (b ∷ bs) = omega (arith, length-hex_encode bs)

All-take : (n : ℕ) (xs : List ℕ) → All (λ b. b < 256) xs → All (λ b. b < 256) (take n xs)
All-take zero xs h = tt
All-take (suc n) [] h = tt
All-take (suc n) (x ∷ xs) (h, hs) = (h, All-take n xs hs)

All-drop : (n : ℕ) (xs : List ℕ) → All (λ b. b < 256) xs → All (λ b. b < 256) (drop n xs)
All-drop zero xs h = h
All-drop (suc n) [] h = tt
All-drop (suc n) (x ∷ xs) (h, hs) = All-drop n xs hs

-- A dash between two groups disappears.
strip_group :
    (bs : List ℕ) (rest : List Char)
    → All (λ b. b < 256) bs
    → strip_dashes (hex_encode bs ++ dash ∷ rest) ≡ hex_encode bs ++ strip_dashes rest
strip_group bs rest h =
    strip_dashes-append (hex_encode bs) (dash ∷ rest)
    ∙ ap₂ ◌++◌ (strip_dashes-hex_encode bs h) (unfold strip_dashes in refl)

-- Two consecutive groups of digits are the digits of the bytes from the first on.
rejoin :
    (m n : ℕ) (bs : List ℕ)
    → hex_encode (take m (drop n bs)) ++ hex_encode (drop (n + m) bs) ≡ hex_encode (drop n bs)
rejoin m n bs =
    rw (← hex_encode-append, ← drop-drop m n bs) (ap hex_encode (take-append-drop m (drop n bs)))

strip_dashes-format_chars :
    (id : Uuid) → All (λ b. b < 256) id → strip_dashes (format_chars id) ≡ hex_encode id
unfolding format_chars
strip_dashes-format_chars id h =
    rw
      (
        strip_group (take 4 id) _ (All-take 4 id h),
        strip_group (take 2 (drop 4 id)) _ (All-take 2 _ (All-drop 4 id h)),
        strip_group (take 2 (drop 6 id)) _ (All-take 2 _ (All-drop 6 id h)),
        strip_group (take 2 (drop 8 id)) _ (All-take 2 _ (All-drop 8 id h)),
        strip_dashes-hex_encode (drop 10 id) (All-drop 10 id h),
      )
      (rw (rejoin 2 8 id) (rw (rejoin 2 6 id) (rw (rejoin 2 4 id) (rejoin 4 0 id))))

-- parseUUID reads back what formatUUID printed: for every value of 16 bytes the result is that value.
pub parse_uuid-format_uuid : (id : Uuid) → IsUuid id → parse_uuid (format_uuid id) ≡ some id
unfolding parse_uuid format_uuid
parse_uuid-format_uuid id (len16, bytes) =
    rw
      (
        to_chars-from_chars (format_chars id),
        strip_dashes-format_chars id bytes,
        length-hex_encode id,
        len16,
      )
      (hex_decode-hex_encode id bytes)

hex_value-lt : (c : Char) {n : ℕ} → hex_value c ≡ some n → n < 16
unfolding hex_value
hex_value-lt c h = ground arith

module _ (P : List ℕ → Type 0) where
  join_byte-inv :
      (hi lo : Option ℕ) (rest : Option (List ℕ)) {bs : List ℕ}
      → join_byte hi lo rest ≡ some bs
      → ((a b : ℕ) (r : List ℕ) → hi ≡ some a → lo ≡ some b → rest ≡ some r → P ((a * 16 + b) ∷ r))
      → P bs
  unfolding join_byte
  join_byte-inv (some a) (some b) (some r) e k = subst P (some-inj e) (k a b r refl refl refl)
  join_byte-inv (some a) (some b) none e k = cc
  join_byte-inv (some a) none r e k = cc
  join_byte-inv none b r e k = cc

hex_decode-bytes :
    (n : ℕ) (s : List Char) {bs : List ℕ}
    → length s ≡ 2 * n
    → hex_decode s ≡ some bs
    → (length bs ≡ n) × All (λ b. b < 256) bs
unfolding hex_decode
hex_decode-bytes zero [] e h =
    subst (λ r. (length r ≡ 0) × All (λ b. b < 256) r) (some-inj h) (refl, tt)
hex_decode-bytes (suc n) [] e h = absurd (omega arith)
hex_decode-bytes n (c ∷ []) e h = cc
hex_decode-bytes zero (c ∷ d ∷ s) e h = absurd (omega arith)
hex_decode-bytes (suc n) (c ∷ d ∷ s) e h =
    join_byte-inv (λ r. (length r ≡ suc n) × All (λ b. b < 256) r) _ _ _ h
      λ a b r ea eb er.
        let ih = hex_decode-bytes n s (omega arith) er in
        (ap suc ih.0, (omega (arith, hex_value-lt c ea, hex_value-lt d eb), ih.1))

-- parseUUID fills a value of exactly 16 bytes, each below 256, whenever it accepts its text.
parse_uuid-IsUuid : (src : String) {id : Uuid} → parse_uuid src ≡ some id → IsUuid id
unfolding parse_uuid
parse_uuid-IsUuid src h = elim (Bool-cases (nat_eq (length (strip_dashes (to_chars src))) 32)) [
  | inl full ↦ hex_decode-bytes 16 _ ((nat_eq_iff _ _).0 full) (rw full at h)
  | inr other ↦ absurd (none-ne-some (rw other at h))
]
