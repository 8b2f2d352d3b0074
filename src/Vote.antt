-- ===== src/Vote.antt =====
-- cmd/server/scheduler.go executeSwarmRouter: how a council's votes become a choice.
-- The votes come in the order in which Go iterates over the map agentResponses, which is any order.
pub mod Tally
pub mod Laws
use gsactions_mcp.Common.{◌==◌, ℕ, suc, ◌+◌, String, List, [], ◌∷◌, ltb, nat_eq, if◌then◌else◌}

abbrev pub Tallies : Type 0
Tallies = List (String × ℕ)

-- counts[c], 0 for a missing key
unfoldable pub tally : String → Tallies → ℕ
tally c [] = 0
tally c ((k, n) ∷ m) = if k == c then n else tally c m

-- counts[c]++
unfoldable pub bump : String → Tallies → Tallies
bump c [] = (c, 1) ∷ []
bump c ((k, n) ∷ m) = if k == c then (k, n + 1) ∷ m else (k, n) ∷ bump c m

-- The variables of the loop: counts, maxCount and finalChoice.
pub record Poll : Type 0 where
  pub counts : Tallies
  pub max_count : ℕ
  pub final_choice : String

unfoldable pub cast_vote : Poll → String → Poll
cast_vote p c =
    let counts' = bump c p.counts in
    let n = tally c counts' in
    if ltb p.max_count n
    then record { counts = counts'; max_count = n; final_choice = c }
    else record p { counts = counts' }

unfoldable pub poll : Poll → List String → Poll
poll p [] = p
poll p (c ∷ votes) = poll (cast_vote p c) votes

-- tieCount
unfoldable pub tie_count : ℕ → Tallies → ℕ
tie_count max [] = 0
tie_count max ((k, n) ∷ m) = if nat_eq n max then suc (tie_count max m) else tie_count max m

abbrev pub empty_poll : Poll
empty_poll = record { counts = []; max_count = 0; final_choice = "" }

-- The choice of the votes: empty for a tie, which forces the fallback.
unfoldable pub resolve_votes : List String → String
resolve_votes votes =
    let p = poll empty_poll votes in
    if ltb 1 (tie_count p.max_count p.counts) then "" else p.final_choice
