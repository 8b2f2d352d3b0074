-- ===== src/Vote/Tally.antt =====
-- The counters of a poll: what they hold, and how many of them hold the maximum.
use gsactions_mcp.Common.{
  ◌==◌, eq_iff, eq_refl, ℕ, suc, ◌≤◌, ◌<◌, String, ◌≡◌, refl, inl, inr, Bool, false, ◌||◌, [], ◌∷◌,
  arith, if◌then◌else◌, Bool-cases,
}
use gsactions_mcp.Vote.{Tallies, tally, bump, tie_count}

abbrev has_key : String → Tallies → Bool
has_key c [] = false
has_key c ((k, n) ∷ m) = k == c || has_key c m

abbrev pub Distinct : Tallies → Type 0
Distinct [] = Unit
Distinct ((k, n) ∷ m) = (has_key k m ≡ false) × Distinct m

pub tally-bump :
    (c j : String) (m : Tallies)
    → tally j (bump c m) ≡ (if c == j then suc (tally j m) else tally j m)
unfolding tally bump
tally-bump c j [] = ground (arith, eq_iff c j)
tally-bump c j ((k, n) ∷ m) = ground (arith, eq_iff k c, eq_iff k j, eq_iff c j, tally-bump c j m)

has_key-bump : (j c : String) (m : Tallies) → has_key j (bump c m) ≡ (c == j || has_key j m)
unfolding bump
has_key-bump j c [] = refl
has_key-bump j c ((k, n) ∷ m) =
    ground (arith, eq_iff k c, eq_iff k j, eq_iff c j, has_key-bump j c m)

pub bump-Distinct : (c : String) (m : Tallies) → Distinct m → Distinct (bump c m)
unfolding bump
bump-Distinct c [] d = (refl, tt)
bump-Distinct c ((k, n) ∷ m) (fresh, d) =
    ground (arith, eq_iff k c, eq_iff c k, has_key-bump k c m, bump-Distinct c m d)

tally-fresh : (c : String) (m : Tallies) → has_key c m ≡ false → tally c m ≡ 0
unfolding tally
tally-fresh c [] h = refl
tally-fresh c ((k, n) ∷ m) h = ground (arith, tally-fresh c m)

module _ (max : ℕ) (positive : 0 < max) where
  tally-tail :
      (k j : String) (n : ℕ) (m : Tallies)
      → has_key k m ≡ false
      → tally j ((k, n) ∷ m) < max
      → tally j m < max
  unfolding tally
  tally-tail k j n m fresh h = ground (arith, eq_iff k j, tally-fresh k m fresh)

  -- Every key but one is below the maximum: at most that one ties.
  tie_count-zero :
      (m : Tallies) → Distinct m → ((j : String) → tally j m < max) → tie_count max m ≡ 0
  unfolding tally tie_count
  tie_count-zero [] d below = refl
  tie_count-zero ((k, n) ∷ m) (fresh, d) below =
      ground
        (arith, below k, eq_refl k, tie_count-zero m d (λ j. tally-tail k j n m fresh (below j)))

  pub tie_count-one :
      (w : String) (m : Tallies)
      → Distinct m
      → ((j : String) → (w == j) ≡ false → tally j m < max)
      → tie_count max m ≤ 1
  unfolding tally tie_count
  tie_count-one w [] d below = omega arith
  tie_count-one w ((k, n) ∷ m) (fresh, d) below = elim (Bool-cases (w == k)) [
    | inl same ↦ ground (arith, tie_count-zero m d (rest ((eq_iff w k).0 same)))
    | inr other ↦ ground (
      arith,
      below k other,
      eq_refl k,
      tie_count-one w m d (λ j ne. tally-tail k j n m fresh (below j ne)),
    )
  ]
    where
      rest : w ≡ k → (j : String) → tally j m < max
      rest e j = elim (Bool-cases (w == j)) [
        | inl same ↦ ground (arith, eq_iff w j, tally-fresh k m fresh)
        | inr ne ↦ tally-tail k j n m fresh (below j ne)
      ]

  tie_count-some : (w : String) (m : Tallies) → tally w m ≡ max → 1 ≤ tie_count max m
  unfolding tally tie_count
  tie_count-some w [] e = omega arith
  tie_count-some w ((k, n) ∷ m) e = ground (arith, tie_count-some w m)

  pub tie_count-two :
      (w j : String) (m : Tallies)
      → (w == j) ≡ false
      → tally w m ≡ max
      → tally j m ≡ max
      → 2 ≤ tie_count max m
  unfolding tally tie_count
  tie_count-two w j [] ne e f = omega arith
  tie_count-two w j ((k, n) ∷ m) ne e f = ground (
    arith,
    eq_iff k w,
    eq_iff k j,
    eq_iff w j,
    tie_count-some w m,
    tie_count-some j m,
    tie_count-two w j m,
  )
