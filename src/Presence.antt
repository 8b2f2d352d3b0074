-- ===== src/Presence.antt =====
-- cmd/server/session.go AddUser, RemoveUser, IsOnline, and the count of connections in
-- MaintainHeartbeat: the two keys that Redis holds for one user, and the user's connections. Calls of
-- Redis succeed, and the key of the session is refreshed by every connection.
pub mod Limit
pub mod Closing
use gsactions_mcp.Common.{
  ℕ, suc, ◌+◌, ◌-◌, ◌<◌, ◌≡◌, ◌⊎◌, Bool, false, not, Option, none, some, if◌then◌else◌,
}
use gsactions_mcp.Common.Int.{ℤ, pos, negsuc, ◌+ℤ◌, ltb_ℤ}
use gsactions_mcp.Store.{Time}

-- The keys session:<user> and conn_count:<user> with the times at which they run out; the connections
-- that were taken, and those over the limit that have yet to give their count back.
pub record Presence : Type 0 where
  pub now : Time
  pub session_until : Option Time
  pub conn_count : ℤ
  pub count_until : Option Time
  pub connected : ℕ
  pub leaving : ℕ

unfoldable pub is_past : Time → Option Time → Bool
is_past now none = false
is_past now (some until) = not (ltb_ℤ now until)

-- The value of conn_count, 0 for a key that is not there.
unfoldable pub live_count : Presence → ℤ
live_count p = if is_past p.now p.count_until then pos 0 else p.conn_count

-- IsOnline
unfoldable pub is_online : Presence → Bool
is_online p = elim p.session_until [ none ↦ false | some until ↦ ltb_ℤ p.now until ]

-- AddUser: for 30 seconds
unfoldable pub add_user : Presence → Presence
add_user p = record p { session_until = some (p.now +ℤ pos 30000000000) }

-- RemoveUser
unfoldable pub remove_user : Presence → Presence
remove_user p = record p { session_until = none }

-- Incr, and Expire after one minute
unfoldable pub count_up : Presence → Presence
count_up p = record p {
  conn_count = live_count p +ℤ pos 1;
  count_until = some (p.now +ℤ pos 60000000000);
}

-- Decr keeps the time at which the key runs out; a key that is not there is made, without one.
unfoldable pub count_down : Presence → Presence
count_down p = record p {
  conn_count = live_count p +ℤ negsuc 0;
  count_until = if is_past p.now p.count_until then none else p.count_until;
}

-- A new connection: over the limit of ten it is turned away, once it is counted.
unfoldable pub arrive : Presence → Presence
arrive p =
    let counted_up = count_up p in
    if ltb_ℤ (pos 10) counted_up.conn_count
    then record counted_up { leaving = suc p.leaving }
    else add_user (record counted_up { connected = suc p.connected })

-- The deferred Decr of a connection that was turned away.
unfoldable pub turn_away : Presence → Presence
turn_away p = record (count_down p) { leaving = p.leaving - 1 }

-- The ticker of a connection, every 15 seconds; Expire does nothing where the key is not there.
unfoldable pub tick : Presence → Presence
tick p = record (add_user p) {
  count_until =
      if is_past p.now p.count_until then p.count_until else some (p.now +ℤ pos 60000000000);
}

-- A connection closes: ctx.Done, and then the deferred Decr.
unfoldable pub disconnect : Presence → Presence
disconnect p = record (count_down (remove_user p)) { connected = p.connected - 1 }

unfoldable pub pass_time : ℕ → Presence → Presence
pass_time d p = record p { now = p.now +ℤ pos d }

-- The steps of a user's connections. While there are any, time does not pass the end of their count:
-- each ticker prolongs it four times a minute.
pub data Step (p : Presence) : Presence → Type 0 where
  arrives : Step p (arrive p)
  turns_away : 0 < p.leaving → Step p (turn_away p)
  ticks : 0 < p.connected → Step p (tick p)
  disconnects : 0 < p.connected → Step p (disconnect p)
  passes :
      (d : ℕ)
      → (is_past (p.now +ℤ pos d) p.count_until ≡ false) ⊎ (p.connected + p.leaving ≡ 0)
      → Step p (pass_time d p)

abbrev pub nobody_at : Time → Presence
nobody_at now = record {
  now = now;
  session_until = none;
  conn_count = pos 0;
  count_until = none;
  connected = 0;
  leaving = 0;
}

pub data Reachable (start : Time) : Presence → Type 0 where
  begins : Reachable start (nobody_at start)
  later_on : {p q : Presence} → Reachable start p → Step p q → Reachable start q
