-- ===== src/Answer.antt =====
-- cmd/server/scheduler.go extractRawText, parseLLMChoice: what is read from a language model's answer.
-- The result of a sampling request is what json.Marshal makes of it, decoded; a nil result is `none`.
use gsactions_mcp.Common.{
  ◌==◌, ℕ, ◌+◌, Char, code, String, ◌≡◌, refl, ◌⊎◌, Bool, true, false, ◌&&◌, not, Option, none,
  some, List, [], ◌∷◌, leb, nat_eq, if◌then◌else◌, is_none, to_chars, from_chars,
}
use gsactions_mcp.Json.{
  Json, null, string, array, object, cons, Fields, end, field, get_field, as_string, text_or_empty,
}
use gsactions_mcp.Template.{Chars, strip_prefix}

-- A request for sampling over MCP, and encoding/json on the texts that come back.
pub record Client : Type 0 where
  -- RequestSampling on the prompt, by the number of the request in its handler: a result or an
  -- error's text
  pub request_sampling : ℕ → String → Option Json ⊎ String
  -- json.Unmarshal into an interface, `none` on a syntax error
  pub parse_json : String → Option Json
  -- the order in which `n` goroutines come to their end, by their numbers
  pub finishing : ℕ → List ℕ
  -- the entries of a map in the order in which `range` takes them
  pub range : List (String × String) → List (String × String)

abbrev item_text : Option Json → Option String
item_text (some (object fs)) = as_string (get_field "text" fs)
item_text _ = none

-- The text of "content": of the object itself, or of the first of an array.
content_text : Option Json → Option String
content_text (some (object fs)) = as_string (get_field "text" fs)
content_text (some (array (cons first rest))) = item_text (some first)
content_text _ = none

-- extractRawText
unfoldable pub extract_raw_text : Option Json → String
unfolding content_text
extract_raw_text (some (object fs)) = text_or_empty (content_text (get_field "content" fs))
extract_raw_text _ = ""

lower : Char → ℕ
lower c = if leb b'A' (code c) && leb (code c) b'Z' then code c + 32 else code c

unfoldable pub same_folded : Chars → Chars → Bool
unfolding lower
same_folded [] [] = true
same_folded (a ∷ s) (b ∷ t) = nat_eq (lower a) (lower b) && same_folded s t
same_folded _ _ = false

-- One member of the object: a key that is "choice" in any case sets the field, if the value is a text;
-- null leaves it, and any other value is an error, which is reported at the end.
set_choice : String → Json → String × Bool → String × Bool
unfolding same_folded
set_choice key value (choice, good) =
    if same_folded (to_chars key) (to_chars "choice") then assigned value else (choice, good)
  where
    assigned : Json → String × Bool
    assigned (string s) = (s, good)
    assigned null = (choice, good)
    assigned _ = (choice, false)

set_choices : Fields → String × Bool → String × Bool
unfolding set_choice
set_choices end r = r
set_choices (field key value fs) r = set_choices fs (set_choice key value r)

-- json.Unmarshal into the struct: the field Choice behind it, and whether there was no error.
unfoldable pub unmarshal_choice : Option Json → String → String × Bool
unfolding set_choices
unmarshal_choice none choice = (choice, false)
unmarshal_choice (some null) choice = (choice, true)
unmarshal_choice (some (object fs)) choice = set_choices fs (choice, true)
unmarshal_choice (some _) choice = (choice, false)

-- The text up to the end of its line.
line_of : Chars → Chars
line_of [] = []
line_of (c ∷ s) = if nat_eq (code c) 10 then [] else c ∷ line_of s

-- A line up to its last closing brace.
up_to_brace : Chars → Option Chars
up_to_brace [] = none
up_to_brace (c ∷ s) = elim (up_to_brace s) [
  | some r ↦ some (c ∷ r)
  | none ↦ if nat_eq (code c) b'}' then some (c ∷ []) else none
]

-- Whether "choice", in quotes, stands in a line with a closing brace behind it.
names_choice : Chars → Bool
unfolding up_to_brace
names_choice [] = false
names_choice (c ∷ s) = elim (strip_prefix (to_chars "\"choice\"") (c ∷ s)) [
  | some behind ↦ not (is_none (up_to_brace behind))
  | none ↦ names_choice s
]

-- FindString of the pattern `\{.*"choice".*\}`, empty where it does not match.
unfoldable pub find_choice : Chars → Chars
unfolding line_of up_to_brace names_choice
find_choice [] = []
find_choice (c ∷ s) =
    let rest = find_choice s in
    if nat_eq (code c) b'{' && names_choice (line_of s)
    then elim (up_to_brace (line_of s)) [ none ↦ [] | some body ↦ c ∷ body ]
    else rest

-- The second try, on what the pattern finds; the field keeps what the first try has set.
abbrev find_again : (String → Option Json) → String × Bool → String → String
find_again parse (choice, true) text = choice
find_again parse (choice, false) text =
    let found = from_chars (find_choice (to_chars text)) in
    if found == ""
    then ""
    else (let (c, good) = unmarshal_choice (parse found) choice in if good then c else "")

-- parseLLMChoice
unfoldable pub parse_llm_choice : (String → Option Json) → Option Json → String
parse_llm_choice parse res =
    let text = extract_raw_text res in
    if text == "" then "" else find_again parse (unmarshal_choice (parse text) "") text

find_choice_test :
    find_choice (to_chars "so {\"choice\": \"a\"} it is") ≡ to_chars "{\"choice\": \"a\"}"
unfolding find_choice strip_prefix
find_choice_test = refl
