-- ===== src/Tests/Deciding.antt =====
-- The theorems on votes, at concrete values.
use gsactions_mcp.Common.{eq_iff, String, ◌≡◌, List, [], ◌∷◌, arith}
use gsactions_mcp.Vote.{resolve_votes}
use gsactions_mcp.Vote.Laws.{Wins, resolve_votes-Wins}

abbrev votes_now : List String
votes_now = "b" ∷ "a" ∷ "b" ∷ []

b-Wins : Wins "b" votes_now
b-Wins = (ground arith, λ c ne. ground (arith, eq_iff "b" c))

resolve_votes-Wins_example : resolve_votes ("b" ∷ "a" ∷ "b" ∷ []) ≡ "b"
resolve_votes-Wins_example = resolve_votes-Wins "b" votes_now b-Wins
