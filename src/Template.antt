-- ===== src/Template.antt =====
-- The placeholders of a prompt: what regexp's ReplaceAllStringFunc does with the patterns
-- `\{\{secrets\.([a-zA-Z0-9_-]+)\}\}` and the like in cmd/server/prompt_resolver.go and scheduler.go.
-- Each pattern is an opening, a run of characters of a class, and a closing that starts outside the
-- class, so a match is decided without backtracking.
pub mod Laws
pub mod Patterns
use mathlib.Core.Option
use gsactions_mcp.Common.{
  ℕ, zero, suc, ◌+◌, ◌-◌, Char, code, ◌≡◌, refl, Bool, true, false, ◌&&◌, ◌||◌, Option, none, some,
  List, [], ◌∷◌, ◌++◌, leb, nat_eq, if◌then◌else◌, length, to_chars,
}

pub record Pattern : Type 0 where
  pub opening : List Char
  pub in_class : Char → Bool
  -- whether a run of the class is a whole name
  pub is_name : List Char → Bool
  pub closing : List Char

abbrev pub Chars : Type 0
Chars = List Char

-- The text behind a literal, if it begins with that.
unfoldable pub strip_prefix : Chars → Chars → Option Chars
strip_prefix [] s = some s
strip_prefix (a ∷ p) [] = none
strip_prefix (a ∷ p) (c ∷ s) = if nat_eq (code a) (code c) then strip_prefix p s else none

-- The longest run of the class, and the text behind it.
unfoldable pub span : (Char → Bool) → Chars → Chars × Chars
span p [] = ([], [])
span p (c ∷ s) = if p c then (c ∷ (span p s).0, (span p s).1) else ([], c ∷ s)

abbrev close_name : Pattern → Chars × Chars → Option (Chars × Chars)
close_name r (name, rest) =
    if r.is_name name then Option.map (λ t. (name, t)) (strip_prefix r.closing rest) else none

-- The name of the placeholder that a text begins with, and the text behind it.
unfoldable pub match_at : Pattern → Chars → Option (Chars × Chars)
match_at r s = elim (strip_prefix r.opening s) [
  | none ↦ none
  | some rest ↦ close_name r (span r.in_class rest)
]

-- The number of characters that a placeholder has behind its first.
abbrev pub tail_length : Pattern → Chars → ℕ
tail_length r name = length r.opening + length name + length r.closing - 1

-- What stands for a placeholder: the value of its name, or the match itself.
unfoldable pub replacement : Pattern → (Chars → Option Chars) → Chars → Chars
replacement r value name = elim (value name) [
  | none ↦ r.opening ++ (name ++ r.closing)
  | some v ↦ v
]

-- ReplaceAllStringFunc: from the left, with `skip` characters of a match still to pass over.
unfoldable pub scan : Pattern → (Chars → Option Chars) → ℕ → Chars → Chars
scan r value skip [] = []
scan r value (suc k) (c ∷ s) = scan r value k s
scan r value zero (c ∷ s) = elim (match_at r (c ∷ s)) [
  | none ↦ c ∷ scan r value zero s
  | some (name, _) ↦ replacement r value name ++ scan r value (tail_length r name) s
]

unfoldable pub replace_all : Pattern → (Chars → Option Chars) → Chars → Chars
unfolding scan match_at strip_prefix span replacement
replace_all r value s = scan r value 0 s

between : ℕ → ℕ → Char → Bool
between lo hi c = leb lo (code c) && leb (code c) hi

alphanumeric : Char → Bool
unfolding between
alphanumeric c = between b'a' b'z' c || between b'A' b'Z' c || between b'0' b'9' c

-- [a-zA-Z0-9_-]
unfoldable pub word_char : Char → Bool
unfolding alphanumeric
word_char c = alphanumeric c || nat_eq (code c) b'_' || nat_eq (code c) b'-'

-- [a-zA-Z0-9._-]
unfoldable pub path_char : Char → Bool
unfolding word_char
path_char c = word_char c || nat_eq (code c) b'.'

-- [0-9a-fA-F-]
unfoldable pub uuid_char : Char → Bool
unfolding between
uuid_char c =
    between b'0' b'9' c || between b'a' b'f' c || between b'A' b'F' c || nat_eq (code c) b'-'

abbrev pub not_empty : Chars → Bool
not_empty [] = false
not_empty (c ∷ s) = true

abbrev pub braces : Chars
braces = to_chars "}}"

abbrev pub secret_pattern : Pattern
secret_pattern = record {
  opening = to_chars "{{secrets.";
  in_class = word_char;
  is_name = not_empty;
  closing = braces;
}

abbrev pub env_var_pattern : Pattern
env_var_pattern = record {
  opening = to_chars "{{env.";
  in_class = word_char;
  is_name = not_empty;
  closing = braces;
}

abbrev pub webhook_body_pattern : Pattern
webhook_body_pattern = record {
  opening = to_chars "{{webhook.body.";
  in_class = word_char;
  is_name = not_empty;
  closing = braces;
}

abbrev pub state_pattern : Pattern
state_pattern = record {
  opening = to_chars "{{state.";
  in_class = path_char;
  is_name = not_empty;
  closing = braces;
}

abbrev pub prompt_var_pattern : Pattern
prompt_var_pattern = record {
  opening = to_chars "{{task.";
  in_class = uuid_char;
  is_name = λ s. nat_eq (length s) 36;
  closing = to_chars ".output}}";
}

replace_test :
    replace_all secret_pattern (λ n. some (to_chars "K")) (to_chars "a {{secrets.x}}{{secrets.}} b")
    ≡ to_chars "a K{{secrets.}} b"
unfolding replace_all word_char
replace_test = refl
