-- ===== src/Conditions/Laws.antt =====
-- How the operators of conditions relate.
use gsactions_mcp.Common.{◌≡◌, arith}
use gsactions_mcp.Conditions.{compare_texts, compare_values}
use gsactions_mcp.Json.{Json, Floats}

module _ (f : Floats) (a t : Json) where
  -- Less is greater with the sides exchanged, under either spelling, and the two spellings of greater
  -- agree, whether the values compare as numbers or as texts.
  compare_values-dual :
      (compare_values f a t "greater_than" ≡ compare_values f t a "less_than")
      × (compare_values f a t ">" ≡ compare_values f t a "<")
      × (compare_values f a t ">" ≡ compare_values f a t "greater_than")
  unfolding compare_values compare_texts
  compare_values-dual = (ground arith, ground arith, ground arith)
