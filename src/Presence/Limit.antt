-- ===== src/Presence/Limit.antt =====
-- A user has at most ten connections.
use gsactions_mcp.Common.{
  ℕ, suc, ◌+◌, ◌-◌, ◌≤◌, ◌<◌, ◌≡◌, refl, ap, ◌∙◌, ◌⊎◌, inl, inr, true, false, Option, none, some,
  arith, Bool-cases,
}
use gsactions_mcp.Common.Int.{ℤ, pos, negsuc, ◌+ℤ◌, ltb_ℤ}
use gsactions_mcp.Presence.{
  Presence, is_past, live_count, add_user, remove_user, count_up, count_down, arrive, turn_away,
  tick, disconnect, pass_time, arrives, turns_away, ticks, disconnects, passes, Reachable, begins,
  later_on,
}
use gsactions_mcp.Store.{Time}

-- Redis counts the connections that are there, and ten at most were taken.
abbrev pub IsLimited : Presence → Type 0
IsLimited p = (live_count p ≡ pos (p.connected + p.leaving)) × (p.connected ≤ 10)

pub later : (now : ℤ) (n : ℕ) → ltb_ℤ now (now +ℤ pos (suc n)) ≡ true
unfolding ◌+ℤ◌
later (pos a) n = ground arith
later (negsuc a) n = ground arith

still_past : (now until : ℤ) (d : ℕ) → ltb_ℤ now until ≡ false → ltb_ℤ (now +ℤ pos d) until ≡ false
unfolding ◌+ℤ◌
still_past (pos a) (pos b) d h = ground arith
still_past (pos a) (negsuc b) d h = ground arith
still_past (negsuc a) (pos b) d h = ground arith
still_past (negsuc a) (negsuc b) d h = ground arith

is_past-later :
    (now : Time) (d : ℕ) (o : Option Time) → is_past now o ≡ true → is_past (now +ℤ pos d) o ≡ true
unfolding is_past
is_past-later now d none h = cc
is_past-later now d (some until) h = ground (arith, still_past now until d)

plus_one : (n : ℕ) → pos n +ℤ pos 1 ≡ pos (n + 1)
unfolding ◌+ℤ◌
plus_one n = ground arith

minus_one : (n : ℕ) → pos (suc n) +ℤ negsuc 0 ≡ pos n
unfolding ◌+ℤ◌
minus_one n = ground arith

live_count-count_up :
    (p : Presence) (n : ℕ) → live_count p ≡ pos n → live_count (count_up p) ≡ pos (n + 1)
unfolding count_up live_count is_past
live_count-count_up p n h = rw (later p.now 59999999999) (ap (λ z. z +ℤ pos 1) h ∙ plus_one n)

live_count-count_down :
    (p : Presence) (n : ℕ) → live_count p ≡ pos (suc n) → live_count (count_down p) ≡ pos n
unfolding count_down live_count
live_count-count_down p n h = ground (arith, h, minus_one n)

conn_count-count_up :
    (p : Presence) (n : ℕ) → live_count p ≡ pos n → (count_up p).conn_count ≡ pos (n + 1)
unfolding count_up
conn_count-count_up p n h = ap (λ z. z +ℤ pos 1) h ∙ plus_one n

connected-count_up : (p : Presence) → (count_up p).connected ≡ p.connected
unfolding count_up
connected-count_up p = refl

leaving-count_up : (p : Presence) → (count_up p).leaving ≡ p.leaving
unfolding count_up
leaving-count_up p = refl

connected-count_down : (p : Presence) → (count_down p).connected ≡ p.connected
unfolding count_down
connected-count_down p = refl

leaving-count_down : (p : Presence) → (count_down p).leaving ≡ p.leaving
unfolding count_down
leaving-count_down p = refl

live_count-remove_user : (p : Presence) → live_count (remove_user p) ≡ live_count p
unfolding live_count remove_user
live_count-remove_user p = refl

leaving-remove_user : (p : Presence) → (remove_user p).leaving ≡ p.leaving
unfolding remove_user
leaving-remove_user p = refl

-- There is room for one more below the limit.
room : (n : ℕ) {c : ℤ} → c ≡ pos (n + 1) → ltb_ℤ (pos 10) c ≡ false → suc n ≤ 10
room n same free = ground (arith, same, free)

-- The invariant from a count.
limited :
    (p : Presence) (n : ℕ)
    → live_count p ≡ pos n
    → n ≡ p.connected + p.leaving
    → p.connected ≤ 10
    → IsLimited p
limited p n count same few = (count ∙ ap (λ k. pos k) same, few)

arrive-IsLimited : (p : Presence) → IsLimited p → IsLimited (arrive p)
unfolding arrive add_user live_count
arrive-IsLimited p (count, few) =
    let n = p.connected + p.leaving in
    let up_count = conn_count-count_up p n count in
    let live = live_count-count_up p n count in
    elim (Bool-cases (ltb_ℤ (pos 10) (count_up p).conn_count)) [
      | inl full ↦ rw (full) (
          limited (record (count_up p) { leaving = suc p.leaving }) (n + 1) live
            (ground (arith, connected-count_up p)) (ground (arith, connected-count_up p)))
      | inr free ↦ rw (free) (
          limited (add_user (record (count_up p) { connected = suc p.connected })) (n + 1) live
            (ground (arith, leaving-count_up p)) (ground (arith, room n up_count free)))
    ]

turn_away-IsLimited : (p : Presence) → 0 < p.leaving → IsLimited p → IsLimited (turn_away p)
unfolding turn_away live_count
turn_away-IsLimited p some_leave (count, few) =
    let n = p.connected + (p.leaving - 1) in
    let more : p.connected + p.leaving ≡ suc n = omega arith in
    limited (record (count_down p) { leaving = p.leaving - 1 }) n
      (live_count-count_down p n (count ∙ ap (λ k. pos k) more))
      (ground (arith, connected-count_down p)) (ground (arith, connected-count_down p))

disconnect-IsLimited : (p : Presence) → 0 < p.connected → IsLimited p → IsLimited (disconnect p)
unfolding disconnect live_count
disconnect-IsLimited p some_there (count, few) =
    let n = p.connected - 1 + p.leaving in
    let more : p.connected + p.leaving ≡ suc n = omega arith in
    limited (record (count_down (remove_user p)) { connected = p.connected - 1 }) n
      (live_count-count_down (remove_user p) n
        (live_count-remove_user p ∙ count ∙ ap (λ k. pos k) more))
      (ground (arith, leaving-count_down (remove_user p), leaving-remove_user p)) (omega arith)

tick-IsLimited : (p : Presence) → IsLimited p → IsLimited (tick p)
unfolding tick add_user live_count is_past
tick-IsLimited p (count, few) = elim (Bool-cases (is_past p.now p.count_until)) [
  | inl past ↦ (ground (arith, past, count), few)
  | inr fresh ↦ (ground (arith, fresh, count, later p.now 59999999999), few)
]

pass_time-IsLimited :
    (d : ℕ) (p : Presence)
    → (is_past (p.now +ℤ pos d) p.count_until ≡ false) ⊎ (p.connected + p.leaving ≡ 0)
    → IsLimited p
    → IsLimited (pass_time d p)
unfolding pass_time live_count
pass_time-IsLimited d p timely (count, few) = elim (Bool-cases (is_past p.now p.count_until)) [
  | inl past ↦ (ground (arith, past, count, is_past-later p.now d p.count_until past), few)
  | inr fresh ↦ (ground (arith, fresh, count, timely), few)
]

-- Step by step, from a time without connections: the count in Redis is the number of connections
-- that are there, those that are turned away included, and at most ten were taken.
pub Reachable-IsLimited : {start : Time} {p : Presence} → Reachable start p → IsLimited p
unfolding live_count is_past
Reachable-IsLimited begins = (refl, omega arith)
Reachable-IsLimited (later_on {p = p} before arrives) =
    arrive-IsLimited p (Reachable-IsLimited before)
Reachable-IsLimited (later_on {p = p} before (turns_away h)) =
    turn_away-IsLimited p h (Reachable-IsLimited before)
Reachable-IsLimited (later_on {p = p} before (ticks h)) =
    tick-IsLimited p (Reachable-IsLimited before)
Reachable-IsLimited (later_on {p = p} before (disconnects h)) =
    disconnect-IsLimited p h (Reachable-IsLimited before)
Reachable-IsLimited (later_on {p = p} before (passes d timely)) =
    pass_time-IsLimited d p timely (Reachable-IsLimited before)
