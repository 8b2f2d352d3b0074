-- ===== src/Conditions.antt =====
-- cmd/server/scheduler.go: the conditions of loops and of branches.
pub mod Laws
use Prim.Native.String.{compare}
use text.Mathlib.Text.{is_lt}
use gsactions_mcp.Common.{
  ◌==◌, find?, ℕ, String, Bool, true, false, ◌||◌, not, Option, none, some, if◌then◌else◌,
}
use gsactions_mcp.Json.{
  Json, null, Fields, Floats, get_field, as_string, as_bool, text_or_empty, unmarshal_map,
  unmarshal_string_map, get_text, show_value,
}

-- strings.Contains
unfoldable pub contains : String → String → Bool
contains s t = elim (find? s t) [ none ↦ false | some i ↦ true ]

greater : String → Bool
greater op = op == "greater_than" || op == ">"

smaller : String → Bool
smaller op = op == "less_than" || op == "<"

-- The comparison of the printed values, which every operator but a numeric order comes to.
unfoldable pub compare_texts : String → String → String → Bool
unfolding greater smaller
compare_texts actual target op =
    if op == "equals" || op == "=="
    then actual == target
    else if op == "not_equals" || op == "!="
    then not (actual == target)
    else if op == "contains"
    then contains actual target
    else if greater op
    then is_lt (compare target actual)
    else if smaller op
    then is_lt (compare actual target)
    else false

abbrev compare_numbers : Floats → String → String → String → Option ℕ → Option ℕ → Bool
compare_numbers f actual target op (some a) (some t) = if greater op then f.less t a else f.less a t
compare_numbers f actual target op _ _ = compare_texts actual target op

-- compareValues
unfoldable pub compare_values : Floats → Json → Json → String → Bool
unfolding greater smaller
compare_values f actual target op =
    let a = show_value f actual in
    let t = show_value f target in
    if greater op || smaller op
    then compare_numbers f a t op (f.parse_float a) (f.parse_float t)
    else compare_texts a t op

abbrev json_or_null : Option Json → Json
json_or_null none = null
json_or_null (some j) = j

-- The rest of evaluateWorkflowLoop once the configuration is an enabled one.
loop_holds : Floats → Fields → Fields → Bool
loop_holds f cond state =
    elim (get_field (text_or_empty (as_string (get_field "variable" cond))) state) [
      | none ↦ false
      | some v ↦
          compare_values f v (json_or_null (get_field "value" cond))
            (text_or_empty (as_string (get_field "operator" cond)))
    ]

loop_enabled : Option Bool → Bool
loop_enabled (some true) = true
loop_enabled _ = false

-- evaluateWorkflowLoop; a nil state is `none`.
unfoldable pub evaluate_workflow_loop : Floats → Option Json → Option Fields → Bool
unfolding loop_holds loop_enabled
evaluate_workflow_loop f none state = false
evaluate_workflow_loop f config none = false
evaluate_workflow_loop f config (some state) = elim (unmarshal_map config) [
  | none ↦ false
  | some cond ↦
      if loop_enabled (as_bool (get_field "enabled" cond)) then loop_holds f cond state else false
]

-- evaluateBranchCondition
unfoldable pub evaluate_branch_condition : Option Json → String → Bool
evaluate_branch_condition none output = true
evaluate_branch_condition condition output = elim (unmarshal_string_map condition) [
  | none ↦ true
  | some cond ↦
      if get_text "if" cond == "contains" then contains output (get_text "value" cond) else true
]
