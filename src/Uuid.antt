-- ===== src/Uuid.antt =====
-- cmd/server/globals.go: the text form of a UUID.
-- A UUID is the list of its 16 bytes; the flag `Valid` of pgtype.UUID is an `Option` where it matters.
pub mod RoundTrip
use gsactions_mcp.Common.{
  ℕ, zero, suc, ◌+◌, ◌-◌, ◌*◌, ◌/◌, ◌%◌, Char, code, String, ◌≡◌, refl, Bool, true, false, ◌&&◌,
  Option, none, some, List, [], ◌∷◌, ◌++◌, leb, nat_eq, if◌then◌else◌, length, take, drop, to_chars,
  from_chars,
}

abbrev pub Uuid : Type 0
Uuid = List ℕ

-- `==` on two byte arrays.
unfoldable pub uuid_eq : Uuid → Uuid → Bool
uuid_eq [] [] = true
uuid_eq (a ∷ u) (b ∷ v) = nat_eq a b && uuid_eq u v
uuid_eq _ _ = false

abbrev pub dash : Char
dash = "-"

abbrev hex_chars : List Char
hex_chars =
    "0" ∷ "1" ∷ "2" ∷ "3" ∷ "4" ∷ "5" ∷ "6" ∷ "7" ∷ "8" ∷ "9" ∷ "a" ∷ "b" ∷ "c" ∷ "d" ∷ "e" ∷ "f"
    ∷ []

hex_char_in : List Char → ℕ → Char
hex_char_in [] n = dash
hex_char_in (c ∷ cs) zero = c
hex_char_in (c ∷ cs) (suc n) = hex_char_in cs n

-- The digit of a nibble in hex.Encode's table.
unfoldable pub hex_char : ℕ → Char
unfolding hex_char_in
hex_char n = hex_char_in hex_chars n

-- The value of a digit in hex.Decode's table, which takes both cases.
unfoldable pub hex_value : Char → Option ℕ
hex_value c =
    let n = code c in
    if leb b'0' n && leb n b'9'
    then some (n - b'0')
    else if leb b'a' n && leb n b'f'
    then some (n - b'a' + 10)
    else if leb b'A' n && leb n b'F'
    then some (n - b'A' + 10)
    else none

-- hex.Encode
unfoldable pub hex_encode : List ℕ → List Char
hex_encode [] = []
hex_encode (b ∷ bs) = hex_char (b / 16) ∷ hex_char (b % 16) ∷ hex_encode bs

unfoldable pub join_byte : Option ℕ → Option ℕ → Option (List ℕ) → Option (List ℕ)
join_byte (some hi) (some lo) (some bs) = some ((hi * 16 + lo) ∷ bs)
join_byte _ _ _ = none

-- hex.DecodeString, which refuses an odd length and a character that is no digit.
unfoldable pub hex_decode : List Char → Option (List ℕ)
unfolding join_byte
hex_decode [] = some []
hex_decode (c ∷ []) = none
hex_decode (c ∷ d ∷ s) = join_byte (hex_value c) (hex_value d) (hex_decode s)

-- strings.ReplaceAll(src, "-", "")
unfoldable pub strip_dashes : List Char → List Char
strip_dashes [] = []
strip_dashes (c ∷ s) = if nat_eq (code c) b'-' then strip_dashes s else c ∷ strip_dashes s

-- formatUUID: eight, four, four, four and twelve digits, with dashes between.
unfoldable pub format_chars : Uuid → List Char
format_chars id =
    hex_encode (take 4 id)
    ++ dash
      ∷ (hex_encode (take 2 (drop 4 id))
          ++ dash
            ∷ (hex_encode (take 2 (drop 6 id))
                ++ dash ∷ (hex_encode (take 2 (drop 8 id)) ++ dash ∷ hex_encode (drop 10 id))))

unfoldable pub format_uuid : Uuid → String
format_uuid id = from_chars (format_chars id)

unfoldable pub parse_chars : List Char → Option Uuid
parse_chars src =
    let digits = strip_dashes src in if nat_eq (length digits) 32 then hex_decode digits else none

-- parseUUID; `none` stands for either error.
unfoldable pub parse_uuid : String → Option Uuid
unfolding parse_chars
parse_uuid src = parse_chars (to_chars src)

abbrev nil_uuid : Uuid
nil_uuid = 0 ∷ 1 ∷ 2 ∷ 3 ∷ 4 ∷ 5 ∷ 6 ∷ 7 ∷ 8 ∷ 9 ∷ 10 ∷ 11 ∷ 12 ∷ 13 ∷ 14 ∷ 255 ∷ []

format_test : format_uuid nil_uuid ≡ "00010203-0405-0607-0809-0a0b0c0d0eff"
unfolding format_uuid format_chars hex_encode hex_char
format_test = refl

parse_test : parse_uuid "00010203-0405-0607-0809-0A0B0C0D0EFF" ≡ some nil_uuid
unfolding parse_uuid strip_dashes hex_decode hex_value
parse_test = refl
