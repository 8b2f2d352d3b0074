-- ===== src/Template/Patterns.antt =====
-- The patterns of cmd/server are of the form that the laws of replacing are about.
use gsactions_mcp.Common.{refl, to_chars}
use gsactions_mcp.Template.{
  word_char, path_char, uuid_char, secret_pattern, env_var_pattern, webhook_body_pattern,
  state_pattern, prompt_var_pattern,
}
use gsactions_mcp.Template.Laws.{IsPattern}

pub secret-IsPattern : IsPattern secret_pattern
unfolding word_char
secret-IsPattern = record {
  first = "{";
  others = to_chars "{secrets.";
  opening_eq = refl;
  first_brace = refl;
  stop = "}";
  behind = to_chars "}";
  closing_eq = refl;
  stop_outside = refl;
}

pub webhook_body-IsPattern : IsPattern webhook_body_pattern
unfolding word_char
webhook_body-IsPattern = record {
  first = "{";
  others = to_chars "{webhook.body.";
  opening_eq = refl;
  first_brace = refl;
  stop = "}";
  behind = to_chars "}";
  closing_eq = refl;
  stop_outside = refl;
}

pub state-IsPattern : IsPattern state_pattern
unfolding path_char
state-IsPattern = record {
  first = "{";
  others = to_chars "{state.";
  opening_eq = refl;
  first_brace = refl;
  stop = "}";
  behind = to_chars "}";
  closing_eq = refl;
  stop_outside = refl;
}

pub prompt_var-IsPattern : IsPattern prompt_var_pattern
unfolding uuid_char
prompt_var-IsPattern = record {
  first = "{";
  others = to_chars "{task.";
  opening_eq = refl;
  first_brace = refl;
  stop = ".";
  behind = to_chars "output}}";
  closing_eq = refl;
  stop_outside = refl;
}

env_var-IsPattern : IsPattern env_var_pattern
unfolding word_char
env_var-IsPattern = record {
  first = "{";
  others = to_chars "{env.";
  opening_eq = refl;
  first_brace = refl;
  stop = "}";
  behind = to_chars "}";
  closing_eq = refl;
  stop_outside = refl;
}
