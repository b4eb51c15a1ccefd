-- ===== src/Limits/Concurrency.antt =====
-- `ConcurrencyTracker` of internal/limits/tracker.go. Each operation is its effect when no other
-- thread runs between its load and its compare-and-swap; Limits/Interleaving.antt has the loops.
use local_router.Prelude.{Bool, true, false, arith, ◌≡◌, if◌then◌else◌, ◌||◌, ◌&&◌}
use local_router.Prelude.Int.{ℤ, pos, negsuc, ◌+ℤ◌, ◌≤ℤ◌, ◌<ℤ◌, leb_ℤ, ltb_ℤ, eqb_ℤ, +ℤ_parts}

pub record ConcurrencyTracker : Type 0 where
  pub active : ℤ
  pub limit : ℤ

unfoldable pub try_acquire : ConcurrencyTracker → ConcurrencyTracker × Bool
try_acquire c =
    if eqb_ℤ c.limit (pos 0)
    then (record c { active = c.active +ℤ pos 1 }, true)
    else if leb_ℤ c.limit c.active
    then (c, false)
    else (record c { active = c.active +ℤ pos 1 }, true)

unfoldable pub release : ConcurrencyTracker → ConcurrencyTracker
release c = if leb_ℤ c.active (pos 0) then c else record c { active = c.active +ℤ negsuc 0 }

-- The part of `RestoreActiveRequests` behind the lookup.
unfoldable pub restore_active : ℤ → ConcurrencyTracker → ConcurrencyTracker
restore_active active c =
    if ltb_ℤ active (pos 0) || (ltb_ℤ (pos 0) c.limit && ltb_ℤ c.limit active)
    then c
    else record c { active = active }

-- The count lies between 0 and the limit, where there is a limit.
pub record IsBounded (c : ConcurrencyTracker) : Type 0 where
  pub nonneg : pos 0 ≤ℤ c.active
  pub limit_nonneg : pos 0 ≤ℤ c.limit
  pub capped : pos 0 <ℤ c.limit → c.active ≤ℤ c.limit

pub try_acquire-IsBounded : (c : ConcurrencyTracker) → IsBounded c → IsBounded (try_acquire c).0
unfolding try_acquire
try_acquire-IsBounded c b = ground (arith, +ℤ_parts c.active (pos 1))

pub release-IsBounded : (c : ConcurrencyTracker) → IsBounded c → IsBounded (release c)
unfolding release
release-IsBounded c b = ground (arith, +ℤ_parts c.active (negsuc 0))

pub restore_active-IsBounded :
    (n : ℤ) (c : ConcurrencyTracker) → IsBounded c → IsBounded (restore_active n c)
unfolding restore_active
restore_active-IsBounded n c b = ground arith

-- A slot that was acquired and released leaves the tracker as it was, where the count was in bounds.
pub release-try_acquire :
    (c : ConcurrencyTracker)
    → IsBounded c
    → (try_acquire c).1 ≡ true
    → release (try_acquire c).0 ≡ c
unfolding try_acquire release ◌+ℤ◌
release-try_acquire c b h = ground arith
