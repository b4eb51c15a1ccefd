-- ===== src/State/Persistence/Merged.antt =====
-- `BuildReportData` of internal/state/persistence.go: the saved states and those in memory, merged.
use local_router.Prelude.{
  ◌≡◌, refl, ap, inl, inr, suc, ◌+◌, false, List, [], ◌∷◌, All, In, length, Bool-cases, arith,
  str_eq, or_zero,
}
use local_router.Prelude.Time.{Time}
use local_router.GoMap
use local_router.State.Report.{StateManager}
use local_router.State.Report.Status.{ProviderState, GlobalState, get_all_provider_states}
use local_router.State.Persistence.{
  Disk, Json, replace_state, replace_states, named_states, count_state, count_states,
  build_report_data, load_all_provider_states, empty_global,
}

abbrev pub DistinctNames : List ProviderState → Type 0
DistinctNames [] = Unit
DistinctNames (p ∷ ps) = All (λ q. str_eq p.name q.name ≡ false) ps × DistinctNames ps

In-replace_state : (ms : ProviderState) (ps : List ProviderState) → In ms (replace_state ms ps)
unfolding replace_state
In-replace_state ms [] = inl refl
In-replace_state ms (p ∷ ps) = elim (Bool-cases (str_eq p.name ms.name)) [
  | inl same ↦ rw (same, replace_state) (inl refl)
  | inr differ ↦ rw (differ, replace_state) (inr (In-replace_state ms ps))
]

In-replace_other :
    (x ms : ProviderState) (ps : List ProviderState)
    → str_eq x.name ms.name ≡ false
    → In x ps
    → In x (replace_state ms ps)
unfolding replace_state
In-replace_other x ms [] other m = absurd m
In-replace_other x ms (p ∷ ps) other m = elim (Bool-cases (str_eq p.name ms.name)) [
  | inl same ↦ elim m [
    | inl e ↦ absurd (ground (arith, other, same, ap (λ y. y.name) e))
    | inr later ↦ rw (same, replace_state) (inr later)
  ]
  | inr differ ↦ elim m [
    | inl e ↦ rw (differ, replace_state) (inl e)
    | inr later ↦ rw (differ, replace_state) (inr (In-replace_other x ms ps other later))
  ]
]

In-replace_states :
    (x : ProviderState) (more ps : List ProviderState)
    → All (λ q. str_eq x.name q.name ≡ false) more
    → In x ps
    → In x (replace_states more ps)
unfolding replace_states
In-replace_states x [] ps differ m = m
In-replace_states x (q ∷ qs) ps (d, differ) m =
    In-replace_states x qs (replace_state q ps) differ (In-replace_other x q ps d m)

All-In-replace_states :
    (more ps : List ProviderState)
    → DistinctNames more
    → All (λ x. In x (replace_states more ps)) more
unfolding replace_states
All-In-replace_states [] ps distinct = tt
All-In-replace_states (q ∷ qs) ps (differ, distinct) = (
  In-replace_states q qs (replace_state q ps) differ (In-replace_state q ps),
  All-In-replace_states qs (replace_state q ps) distinct,
)

count_state-partition :
    (p : ProviderState) (g : GlobalState)
    → let r = count_state p g in
      r.active_providers + r.blocked_providers ≡ suc (g.active_providers + g.blocked_providers)
unfolding count_state
count_state-partition p g = ground arith

count_states-partition :
    (ps : List ProviderState) (g : GlobalState)
    → let r = count_states ps g in
      r.active_providers + r.blocked_providers
      ≡ g.active_providers + g.blocked_providers + length ps
unfolding count_states
count_states-partition [] g = omega arith
count_states-partition (p ∷ ps) g =
    omega (arith, count_state-partition p g, count_states-partition ps (count_state p g))

-- The report that is built from disk and memory contains the state in memory of every provider that
-- has one, whatever the files say, and its two global counts together count each provider of the
-- report once. The states in memory have pairwise distinct names.
pub build_report_data-merged :
    (json : Json ProviderState) (now : Time) (sm : StateManager) (disk : Disk)
    → DistinctNames (get_all_provider_states now sm)
    → let d = build_report_data json now sm disk in
      All (λ x. In x d.providers) (get_all_provider_states now sm)
      × (d.global.active_providers + d.global.blocked_providers ≡ length d.providers)
unfolding build_report_data
build_report_data-merged json now sm disk distinct =
    let states = or_zero GoMap.empty (load_all_provider_states json disk) in
    let old = named_states states (GoMap.keys states) in
    let merged = replace_states (get_all_provider_states now sm) old in
    (
      All-In-replace_states (get_all_provider_states now sm) old distinct,
      omega (arith, count_states-partition merged (record empty_global { generated_at = now })),
    )
