-- ===== src/Vote/Laws.antt =====
-- What a vote comes to.
use gsactions_mcp.Common.{
  ◌==◌, eq_iff, eq_refl, ℕ, suc, ◌+◌, ◌≤◌, ◌<◌, String, ◌≡◌, refl, sym, ap, subst, fun_ext, ◌∙◌,
  inl, inr, false, List, [], ◌∷◌, arith, ltb, nat_eq, if◌then◌else◌, nat_eq_iff, Bool-cases,
}
use gsactions_mcp.Tools.Isolation.{others}
use gsactions_mcp.Vote.{tally, bump, Poll, cast_vote, poll, tie_count, empty_poll, resolve_votes}
use gsactions_mcp.Vote.Tally.{Distinct, tally-bump, bump-Distinct, tie_count-one, tie_count-two}

-- How often a choice stands among the votes.
abbrev votes_for : String → List String → ℕ
votes_for c [] = 0
votes_for c (v ∷ votes) = if v == c then suc (votes_for c votes) else votes_for c votes

-- The poll after votes of which `c` got `count c`.
record Counted (count : String → ℕ) (p : Poll) : Type 0 where
  tallied : (c : String) → tally c p.counts ≡ count c
  distinct : Distinct p.counts
  maximal : (c : String) → count c ≤ p.max_count
  attained : 0 < p.max_count → count p.final_choice ≡ p.max_count
  unset : p.max_count ≡ 0 → p.final_choice ≡ ""

empty-Counted : Counted (λ c. 0) empty_poll
unfolding tally
empty-Counted = record {
  tallied = λ c. refl;
  distinct = tt;
  maximal = λ c. omega arith;
  attained = λ h. omega arith;
  unset = λ h. refl;
}

abbrev added : String → (String → ℕ) → String → ℕ
added v count c = if v == c then suc (count c) else count c

module _ (count : String → ℕ) (p : Poll) (v : String) (k : Counted count p) where
  one_more : tally v (bump v p.counts) ≡ suc (count v)
  one_more = ground (arith, tally-bump v v p.counts, eq_refl v, k.tallied v)

  cast_vote-Counted : Counted (added v count) (cast_vote p v)
  unfolding cast_vote
  cast_vote-Counted = record {
    tallied = λ c. ground (arith, tally-bump v c p.counts, k.tallied c);
    distinct = ground (arith, bump-Distinct v p.counts k.distinct);
    maximal = λ c. ground (arith, one_more, eq_iff v c, k.maximal c, k.maximal v);
    attained = λ h. ground (arith, one_more, eq_refl v, k.attained, eq_iff v p.final_choice);
    unset = λ h. ground (arith, one_more);
  }

poll-Counted :
    (count total : String → ℕ) (p : Poll) (votes : List String)
    → Counted count p
    → ((c : String) → total c ≡ count c + votes_for c votes)
    → Counted total (poll p votes)
unfolding poll
poll-Counted count total p [] k e = subst (λ f. Counted f p) (fun_ext (λ c. omega (arith, e c))) k
poll-Counted count total p (v ∷ votes) k e =
    poll-Counted (added v count) total (cast_vote p v) votes (cast_vote-Counted count p v k)
      (λ c. ground (arith, e c))

polled : (votes : List String) → Counted (λ c. votes_for c votes) (poll empty_poll votes)
polled votes = poll-Counted (λ c. 0) _ empty_poll votes empty-Counted (λ c. omega arith)

abbrev settled : Poll → String
settled p = if ltb 1 (tie_count p.max_count p.counts) then "" else p.final_choice

module _ (count : String → ℕ) (p : Poll) (w : String) (k : Counted count p) where
  module _ (some_votes : 0 < count w)
      (more : (c : String) → (w == c) ≡ false → count c < count w) where
    positive : 0 < p.max_count
    positive = omega (arith, k.maximal w)

    final-eq : p.final_choice ≡ w
    final-eq = elim (Bool-cases (w == p.final_choice)) [
      | inl e ↦ sym ((eq_iff w p.final_choice).0 e)
      | inr ne ↦ absurd (omega (arith, more p.final_choice ne, k.attained positive, k.maximal w))
    ]

    settled-eq : settled p ≡ w
    settled-eq = ground (
      arith,
      final-eq,
      tie_count-one p.max_count positive w p.counts k.distinct
          (λ j ne. omega (arith, k.tallied j, more j ne, k.maximal w)),
    )

  module _ (chosen : settled p ≡ w) (named : (w == "") ≡ false) where
    no_tie : tie_count p.max_count p.counts ≤ 1
    no_tie = ground (arith, eq_iff w "")

    final-chosen : p.final_choice ≡ w
    final-chosen = ground (arith, eq_iff w "")

    max-positive : 0 < p.max_count
    max-positive = ground (arith, eq_iff w "", k.unset, final-chosen)

    count-max : count w ≡ p.max_count
    count-max = ap count (sym final-chosen) ∙ k.attained max-positive

    fewer : (c : String) → (w == c) ≡ false → count c < count w
    fewer c ne = elim (Bool-cases (nat_eq (count c) p.max_count)) [
      | inl tie ↦ absurd (
          omega (
            arith,
            no_tie,
            tie_count-two p.max_count max-positive w c p.counts ne (k.tallied w ∙ count-max)
                (k.tallied c ∙ (nat_eq_iff _ _).0 tie),
          ))
      | inr less ↦ ground (arith, k.maximal c, count-max)
    ]

-- `w` has more votes than any other choice.
abbrev pub Wins : String → List String → Type 0
Wins w votes =
    (0 < votes_for w votes)
    × ((c : String) → (w == c) ≡ false → votes_for c votes < votes_for w votes)

-- The winner of the votes is chosen, in whatever order they come.
pub resolve_votes-Wins : (w : String) (votes : List String) → Wins w votes → resolve_votes votes ≡ w
unfolding resolve_votes
resolve_votes-Wins w votes (some_votes, more) =
    settled-eq _ (poll empty_poll votes) w (polled votes) some_votes more

-- A choice that is made has more votes than any other.
Wins-resolve_votes :
    (w : String) (votes : List String) → resolve_votes votes ≡ w → (w == "") ≡ false → Wins w votes
unfolding resolve_votes
Wins-resolve_votes w votes chosen named =
    let p = poll empty_poll votes in
    (
      omega (
        arith,
        count-max _ p w (polled votes) chosen named,
        max-positive _ p w (polled votes) chosen named,
      ),
      fewer _ p w (polled votes) chosen named,
    )

transfer :
    (w : String) (votes others : List String)
    → ((c : String) → votes_for c votes ≡ votes_for c others)
    → Wins w votes
    → Wins w others
transfer w votes others same (some_votes, more) =
    (omega (arith, same w), λ c ne. omega (arith, same w, same c, more c ne))

-- The choice depends only on how many votes each option has: in whatever order Go iterates over the
-- answers of the council, it is the same.
resolve_votes_order :
    (votes others : List String)
    → ((c : String) → votes_for c votes ≡ votes_for c others)
    → resolve_votes votes ≡ resolve_votes others
resolve_votes_order votes others same = elim (Bool-cases (resolve_votes votes == "")) [
  | inl none_here ↦ elim (Bool-cases (resolve_votes others == "")) [
    | inl none_there ↦ (eq_iff _ _).0 none_here ∙ sym ((eq_iff _ _).0 none_there)
    | inr named ↦
        resolve_votes-Wins _ votes
          (transfer _ others votes (λ c. sym (same c)) (Wins-resolve_votes _ others refl named))
  ]
  | inr named ↦ sym (
      resolve_votes-Wins _ others
        (transfer _ votes others same (Wins-resolve_votes _ votes refl named)))
]
