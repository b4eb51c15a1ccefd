-- ===== src/Limits/Exhaustion.antt =====
-- What `Record` answers, against a description of the windows that a request puts over the limit.
use local_router.Prelude.{
  ℕ, ◌≤◌, ◌≡◌, refl, ◌⊎◌, inl, inr, String, Bool, true, false, ◌&&◌, some, List, [], ◌∷◌, arith,
  All, In, ap, length, or_zero, if◌then◌else◌, Bool-cases,
}
use local_router.Prelude.Time.{Time, zero_time, before}
use local_router.GoMap
use local_router.Limits.Window.{
  Config, Window, Verdict, record_windows, ensure_windows, count_request, is_over,
}
use local_router.Limits.Tracker.{Tracker, record_request, finish_record}

pub ensure_windows_full :
    (cfgs : List Config) (ws : List Window) → length ws ≡ length cfgs → ensure_windows cfgs ws ≡ ws
unfolding ensure_windows
ensure_windows_full [] ws len = refl
ensure_windows_full (cfg ∷ cfgs) [] len = absurd (omega arith)
ensure_windows_full (cfg ∷ cfgs) (w ∷ ws) len =
    ap (◌∷◌ w) (ensure_windows_full cfgs ws (omega arith))

-- The reset times of the windows that hold more than their config allows once the request counts.
pub over_resets : Time → List Config → List Window → List Time
over_resets now [] ws = []
over_resets now (cfg ∷ cfgs) [] = []
over_resets now (cfg ∷ cfgs) (w ∷ ws) =
    let rest = over_resets now cfgs ws in
    if is_over cfg (count_request now cfg w)
    then (count_request now cfg w).reset_at ∷ rest
    else rest

abbrev pub IsEarliest : Time → List Time → Type 0
IsEarliest t ts = In t ts × All (λ u. t ≤ u) ts

All-le_trans : (t u : ℕ) (ts : List ℕ) → t ≤ u → All (λ v. u ≤ v) ts → All (λ v. t ≤ v) ts
All-le_trans t u [] h a = tt
All-le_trans t u (v ∷ ts) h a = (omega arith, All-le_trans t u ts h a.1)

-- The earlier of two heads stands for both.
IsEarliest-swap :
    (t a b : ℕ) (ts : List ℕ) → a ≤ b → IsEarliest t (a ∷ ts) → IsEarliest t (a ∷ b ∷ ts)
IsEarliest-swap t a b ts h (inl e, l) = (inl e, (l.0, (omega arith, l.1)))
IsEarliest-swap t a b ts h (inr m, l) = (inr (inr m), (l.0, (omega arith, l.1)))

IsEarliest-drop :
    (t a b : ℕ) (ts : List ℕ) → b ≤ a → IsEarliest t (b ∷ ts) → IsEarliest t (a ∷ b ∷ ts)
IsEarliest-drop t a b ts h (m, l) = (inr m, (omega arith, l))

abbrev IsFrom : Verdict → Time → List Time → Type 0
IsFrom v r resets = (v.exhausted ≡ true) × IsEarliest v.reset_at (r ∷ resets)

-- One round: `a` is the reset time of the window at hand, `r` the earliest so far.
IsFrom-sooner :
    (sooner : Bool) (a r : Time) (resets : List Time) (v : Time → Verdict)
    → (sooner ≡ true → a ≤ r)
    → (sooner ≡ false → r ≤ a)
    → ((s : Time) → IsFrom (v s) s resets)
    → IsFrom (v (if sooner then a else r)) r (a ∷ resets)
IsFrom-sooner true a r resets v p q ih = ((ih a).0, IsEarliest-drop _ r a resets (p refl) (ih a).1)
IsFrom-sooner false a r resets v p q ih = ((ih r).0, IsEarliest-swap _ r a resets (q refl) (ih r).1)

IsFrom-round :
    (over : Bool) (a r : Time) (resets : List Time) (v : Time → Verdict)
    → ((s : Time) → IsFrom (v s) s resets)
    → IsFrom (v (if over && before a r then a else r)) r (if over then a ∷ resets else resets)
IsFrom-round false a r resets v ih = ih r
IsFrom-round true a r resets v ih =
    IsFrom-sooner (before a r) a r resets v (λ p. ground arith) (λ q. ground arith) ih

-- The loop once some window is exhausted, with `r` the earliest reset so far.
record_windows_exhausted :
    (now : Time) (cfgs : List Config) (ws : List Window) (r : Time)
    → IsFrom (record_windows now cfgs ws true r) r (over_resets now cfgs ws)
unfolding record_windows over_resets
record_windows_exhausted now [] ws r = (refl, (inl refl, (omega arith, tt)))
record_windows_exhausted now (cfg ∷ cfgs) [] r = (refl, (inl refl, (omega arith, tt)))
record_windows_exhausted now (cfg ∷ cfgs) (w ∷ ws) r =
    let w' = count_request now cfg w in
    IsFrom-round (is_over cfg w') w'.reset_at r (over_resets now cfgs ws)
      (record_windows now cfgs ws true) (record_windows_exhausted now cfgs ws)

-- The loop from its start: no window is over its limit, or the earliest reset is found.
abbrev IsVerdict : Bool → Time → List Time → Type 0
IsVerdict exhausted r resets =
    ((exhausted ≡ false) × (resets ≡ [])) ⊎ ((exhausted ≡ true) × IsEarliest r resets)

record_windows-IsVerdict :
    (now : Time) (cfgs : List Config) (ws : List Window)
    → let v = record_windows now cfgs ws false zero_time in
      IsVerdict v.exhausted v.reset_at (over_resets now cfgs ws)
unfolding record_windows over_resets
record_windows-IsVerdict now [] ws = inl (refl, refl)
record_windows-IsVerdict now (cfg ∷ cfgs) [] = inl (refl, refl)
record_windows-IsVerdict now (cfg ∷ cfgs) (w ∷ ws) =
    let w' = count_request now cfg w in
    elim (Bool-cases (is_over cfg w')) [
      | inr under ↦ rw under (record_windows-IsVerdict now cfgs ws)
      | inl over ↦ rw over (inr (record_windows_exhausted now cfgs ws w'.reset_at))
    ]

-- For an id with configs, `Record` reports exhaustion exactly if the request puts some window over
-- its limit. It then returns the earliest reset time of those windows, and otherwise the zero time.
pub record_request-verdict :
    (now : Time) (id : String) (t : Tracker) (cfgs : List Config)
    → GoMap.get t.configs id ≡ some cfgs
    → let a = record_request now id t in
      let resets =
        over_resets now cfgs (ensure_windows cfgs (or_zero [] (GoMap.get t.windows id))) in
      ((a.exhausted ≡ false) × (a.reset_at ≡ zero_time) × (resets ≡ []))
      ⊎ ((a.exhausted ≡ true) × IsEarliest a.reset_at resets)
unfolding record_request finish_record
record_request-verdict now id t cfgs known =
    let ws = ensure_windows cfgs (or_zero [] (GoMap.get t.windows id)) in
    elim (record_windows-IsVerdict now cfgs ws) [
      | inl (calm, none_over) ↦ rw (known, record_request, calm) (inl (refl, refl, none_over))
      | inr (hit, earliest) ↦ rw (known, record_request, hit) (inr (refl, earliest))
    ]
