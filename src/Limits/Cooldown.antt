-- ===== src/Limits/Cooldown.antt =====
-- Cooldowns reported by a provider: `Block`, `IsBlocked`.
use local_router.Prelude.{◌≤◌, ◌≡◌, String, not, arith, str_eq, eq_iff, if◌then◌else◌}
use local_router.Prelude.Time.{Time, after}
use local_router.GoMap.{get-put, get-remove}
use local_router.Limits.Tracker.{Tracker, block, is_blocked}

-- After `Block(k, until)` the key `k` is blocked up to and including `until`, and no other key is
-- affected.
pub is_blocked-block :
    (t : Tracker) (k j : String) (until now : Time)
    → (is_blocked now j (block k until t)).1
      ≡ (if str_eq k j then not (after now until) else (is_blocked now j t).1)
unfolding is_blocked block
is_blocked-block t k j until now = ground (arith, get-put t.blocked k j until)

-- `IsBlocked` deletes what has expired, and no later call of it, on any key, can tell.
pub is_blocked-is_blocked :
    (t : Tracker) (k j : String) (now later : Time)
    → now ≤ later
    → (is_blocked later j (is_blocked now k t).0).1 ≡ (is_blocked later j t).1
unfolding is_blocked
is_blocked-is_blocked t k j now later h = ground (arith, get-remove t.blocked k j, eq_iff k j)
