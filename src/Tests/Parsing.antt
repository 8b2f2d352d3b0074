-- ===== src/Tests/Parsing.antt =====
-- The theorems on UUIDs and on placeholders, at concrete texts.
use gsactions_mcp.Common.{◌≡◌, refl, Option, none, some, arith, to_chars}
use gsactions_mcp.Prompt.{Vault}
use gsactions_mcp.Template.{Chars}
use gsactions_mcp.Tests.{example_id}
use gsactions_mcp.Uuid.{hex_value, hex_decode, strip_dashes, format_uuid, parse_uuid}
use gsactions_mcp.Uuid.RoundTrip.{IsUuid, parse_uuid-format_uuid}

pub example_id-IsUuid : IsUuid example_id
example_id-IsUuid = ground arith

parse_uuid-format_uuid_example : parse_uuid (format_uuid example_id) ≡ some example_id
parse_uuid-format_uuid_example = parse_uuid-format_uuid example_id example_id-IsUuid

parsed : parse_uuid "00010203-0405-0607-0809-0A0B0C0D0E07" ≡ some example_id
unfolding parse_uuid strip_dashes hex_decode hex_value
parsed = refl

abbrev key_value : Chars → Option Chars
key_value name = some (to_chars "K")

abbrev pub empty_vault : Vault
empty_vault = record {
  get_user_secret = λ user name. none;
  decrypt = λ bytes. none;
  get_task_workspace_env_vars = λ id. none;
}
