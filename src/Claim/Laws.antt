-- ===== src/Claim/Laws.antt =====
-- What claiming, dispatching on a notice and reaping do to a row.
use mathlib.Core.Option
use gsactions_mcp.Common.{◌==◌, ◌&&◌, Option, none, if◌then◌else◌}
use gsactions_mcp.Common.Int.{ℤ, ◌-ℤ◌, ltb_ℤ}
use gsactions_mcp.Store.{Task, Env, status_active, status_processing}
use gsactions_mcp.Uuid.{Uuid}

-- The row after a tick of the reaper.
abbrev reaped : Env → ℤ → Task → Task
reaped env threshold t =
    if t.status == status_processing && ltb_ℤ t.next_run (env.now -ℤ threshold)
    then record t { status = status_active; locked_by = none }
    else t
