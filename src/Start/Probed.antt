-- ===== src/Start/Probed.antt =====
-- What the startup probes (`runStartupProbes` of cmd/localrouter/main.go) leave behind.
use local_router.Prelude.{
  ◌≡◌, refl, ◌∙◌, inl, inr, String, Bool, true, false, Option, none, some, List, [], ◌∷◌, All,
  Bool-cases, Option-cases, str_eq, eq_iff, if◌then◌else◌, arith, or_zero,
}
use local_router.Prelude.Time.{Time, Duration, add}
use local_router.GoMap
use local_router.GoMap.{GoMap, get-put}
use local_router.Provider.{Error}
use local_router.Health.{Monitor, NodeStatus, is_ready, set_ready, made_ready}
use local_router.Health.Workers.{is_ready-set_ready}
use local_router.State.Manager.{Manager, blocked_until, block}
use local_router.Start.Boot.{after_probe, after_probes, probe_window}

-- No provider is probed twice.
abbrev pub DistinctIds : List (String × Time × Option Error) → Type 0
DistinctIds [] = Unit
DistinctIds (q ∷ qs) = All (λ x. str_eq q.0 x.0 ≡ false) qs × DistinctIds qs

unfoldable pub result_of :
    String → List (String × Time × Option Error) → Option (Time × Option Error)
result_of id [] = none
result_of id ((i, now, result) ∷ rest) =
    let later = result_of id rest in if str_eq i id then some (now, result) else later

abbrev has_entry : Option NodeStatus → Bool
has_entry none = false
has_entry (some s) = true

-- Whether a provider is ready, by its result.
abbrev pub ready_by : Monitor → Option (Time × Option Error) → String → Bool
ready_by mon none id = is_ready mon id
ready_by mon (some (now, none)) id = has_entry (GoMap.get mon.states id)
ready_by mon (some (now, some e)) id = is_ready mon id

-- Until when it is blocked.
abbrev pub blocked_by :
    GoMap Bool → GoMap Duration → Manager → Option (Time × Option Error) → String → Time
blocked_by remotes windows st none id = blocked_until st id
blocked_by remotes windows st (some (now, none)) id = blocked_until st id
blocked_by remotes windows st (some (now, some e)) id =
    if or_zero false (GoMap.get remotes id)
    then add now (probe_window windows id)
    else blocked_until st id

result_of-absent :
    (id i : String) (qs : List (String × Time × Option Error))
    → str_eq i id ≡ true
    → All (λ x. str_eq i x.0 ≡ false) qs
    → result_of id qs ≡ none
unfolding result_of
result_of-absent id i [] same differ = refl
result_of-absent id i ((j, at, r) ∷ qs) same (d, differ) =
    ground
      (arith, d, same, eq_iff i id, eq_iff i j, eq_iff j id, result_of-absent id i qs same differ)

module _ (remotes : GoMap Bool) (windows : GoMap Duration) where
  -- One result.
  one-ready :
      (now : Time) (i id : String) (result : Option Error) (mon : Monitor) (st : Manager)
      → is_ready (after_probe now remotes windows i result (mon, st)).0 id
        ≡ (if str_eq i id then ready_by mon (some (now, result)) id else is_ready mon id)
  unfolding after_probe
  one-ready now i id none mon st =
      is_ready-set_ready mon i id ∙ elim (Option-cases (GoMap.get mon.states i)) [
        | inl e ↦ ground (arith, e, eq_iff i id)
        | inr (s, e) ↦ ground (arith, e, eq_iff i id)
      ]
  one-ready now i id (some e) mon st = ground arith

  one-entry :
      (now : Time) (i id : String) (result : Option Error) (mon : Monitor) (st : Manager)
      → str_eq i id ≡ false
      → has_entry (GoMap.get (after_probe now remotes windows i result (mon, st)).0.states id)
        ≡ has_entry (GoMap.get mon.states id)
  unfolding after_probe set_ready
  one-entry now i id none mon st differ = elim (Option-cases (GoMap.get mon.states i)) [
    | inl e ↦ ground (arith, e)
    | inr (s, e) ↦ ground (arith, e, differ, get-put mon.states i id (made_ready s))
  ]
  one-entry now i id (some e) mon st differ = refl

  one-blocked :
      (now : Time) (i id : String) (result : Option Error) (mon : Monitor) (st : Manager)
      → blocked_until (after_probe now remotes windows i result (mon, st)).1 id ≡ (
          if str_eq i id
          then blocked_by remotes windows st (some (now, result)) id
          else blocked_until st id)
  unfolding after_probe block blocked_until
  one-blocked now i id none mon st = ground arith
  one-blocked now i id (some e) mon st = elim (Bool-cases (or_zero false (GoMap.get remotes i))) [
    | inl remote ↦
        ground
          (arith, remote, eq_iff i id, get-put st.blocked i id (add now (probe_window windows i)))
    | inr near ↦ ground (arith, near, eq_iff i id)
  ]

  -- A result of another provider does not change what a later result means.
  other-ready :
      (now : Time) (i id : String) (result : Option Error) (mon : Monitor) (st : Manager)
      (o : Option (Time × Option Error))
      → str_eq i id ≡ false
      → ready_by (after_probe now remotes windows i result (mon, st)).0 o id ≡ ready_by mon o id
  other-ready now i id result mon st none differ =
      ground (arith, differ, one-ready now i id result mon st)
  other-ready now i id result mon st (some (at, none)) differ =
      one-entry now i id result mon st differ
  other-ready now i id result mon st (some (at, some e)) differ =
      ground (arith, differ, one-ready now i id result mon st)

  other-blocked :
      (now : Time) (i id : String) (result : Option Error) (mon : Monitor) (st : Manager)
      (o : Option (Time × Option Error))
      → str_eq i id ≡ false
      → blocked_by remotes windows (after_probe now remotes windows i result (mon, st)).1 o id
        ≡ blocked_by remotes windows st o id
  other-blocked now i id result mon st none differ =
      ground (arith, differ, one-blocked now i id result mon st)
  other-blocked now i id result mon st (some (at, none)) differ =
      ground (arith, differ, one-blocked now i id result mon st)
  other-blocked now i id result mon st (some (at, some e)) differ =
      ground (arith, differ, one-blocked now i id result mon st)

-- The startup probes finish in any order and at any times, each provider at most once. Afterwards a
-- provider whose probe passed is ready, if the monitor knows it; a remote one whose probe failed is
-- blocked for its recovery window from the time of that failure on, or for an hour where the window is
-- not positive; nothing changes for a local one whose probe failed, nor for one that was not probed.
pub after_probes-results :
    (remotes : GoMap Bool) (windows : GoMap Duration)
    (results : List (String × Time × Option Error)) (mon : Monitor) (st : Manager) (id : String)
    → DistinctIds results
    → let after = after_probes remotes windows results (mon, st) in
      (is_ready after.0 id ≡ ready_by mon (result_of id results) id)
      × (blocked_until after.1 id ≡ blocked_by remotes windows st (result_of id results) id)
unfolding after_probes result_of
after_probes-results remotes windows [] mon st id distinct = (refl, refl)
after_probes-results remotes windows ((i, now, result) ∷ rest) mon st id (differ, distinct) =
    let (mon', st') = after_probe now remotes windows i result (mon, st) in
    let (ready, blocked) = after_probes-results remotes windows rest mon' st' id distinct in
    elim (Bool-cases (str_eq i id)) [
      | inl same ↦
          let absent = result_of-absent id i rest same differ in
          (
            ready
                ∙ rw (absent, same)
                    (one-ready remotes windows now i id result mon st ∙ rw same refl),
            blocked
                ∙ rw (absent, same)
                    (one-blocked remotes windows now i id result mon st ∙ rw same refl),
          )
      | inr other ↦ (
        ready
            ∙ other-ready remotes windows now i id result mon st (result_of id rest) other
            ∙ rw other refl,
        blocked
            ∙ other-blocked remotes windows now i id result mon st (result_of id rest) other
            ∙ rw other refl,
      )
    ]
