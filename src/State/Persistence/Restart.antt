-- ===== src/State/Persistence/Restart.antt =====
-- A provider's state across a restart: internal/state/persistence.go writes it, and `main` of
-- cmd/localrouter/main.go puts it back.
use local_router.Prelude.{
  ◌≡◌, refl, ap, ◌∙◌, inl, inr, ◌≤◌, String, ◌&&◌, Option, none, some, Bool-cases, Option-cases,
  arith, str_eq, eq_iff, if◌then◌else◌, subst,
}
use local_router.Prelude.Time.{Time, zero_time, before, is_zero}
use local_router.GoMap
use local_router.GoMap.{get-put, get-empty}
use local_router.Health.{Monitor}
use local_router.Limits.Tracker.{Tracker}
use local_router.State.Manager.{
  Manager, State, get_state, blocked_until, exhausted_until, block_until, set_exhausted,
}
use local_router.State.Manager as Providers
use local_router.State.Report.Status.{ProviderState}
use local_router.State.Persistence.{
  Disk, Json, SaveOutcome, no_directory, write_fails, rename_fails, saved, save_provider_state,
  load_provider_state, loaded_or_empty, pointer, with_routing, update_routing_state,
}
use local_router.Start.Boot.{restore_state, restore_blocked, restore_exhausted}

-- The decoder reads this state back from what the encoder makes of it.
abbrev pub Survives : Json ProviderState → ProviderState → Type 0
Survives json ps = json.decode (json.encode ps) ≡ some ps

save_provider_state-load :
    (json : Json ProviderState) (outcome : SaveOutcome) (ps : ProviderState) (disk : Disk)
    (other : String)
    → Survives json ps
    → let (disk', ok) = save_provider_state json outcome ps disk in
      load_provider_state json disk' other
      ≡ (if ok && str_eq ps.name other then some ps else load_provider_state json disk other)
unfolding save_provider_state load_provider_state
save_provider_state-load json no_directory ps disk other round = refl
save_provider_state-load json (write_fails part) ps disk other round = refl
save_provider_state-load json rename_fails ps disk other round = refl
save_provider_state-load json saved ps disk other round = elim (Bool-cases (str_eq ps.name other)) [
  | inl same ↦
      rw (get-put disk.states ps.name other (json.encode ps), same, load_provider_state)
        (rw same round)
  | inr differ ↦
      let put = get-put disk.states ps.name other (json.encode ps) in
      elim (Option-cases (GoMap.get disk.states other)) [
        | inl gone ↦ rw (put, differ, gone, load_provider_state) refl
        | inr (text, there) ↦ rw (put, differ, there, load_provider_state) (rw differ refl)
      ]
]

-- `UpdateRoutingState` is all or nothing, however far the operating system lets it come: where it
-- reports success, the provider's file reads as what it held before with the two times replaced, or,
-- where it was missing or could not be read or decoded, as the state of a new provider with these times;
-- where it reports an error, every file reads as before. The other providers' files never change. The
-- decoder reads the new state back, and the provider's file, if it could be read and decoded, carried
-- the provider's name.
pub update_routing_state-load :
    (json : Json ProviderState) (outcome : SaveOutcome) (id other : String)
    (blocked exhausted : Time) (disk : Disk)
    → Survives json (with_routing blocked exhausted (loaded_or_empty json disk id))
    → (loaded_or_empty json disk id).name ≡ id
    → let (disk', ok) = update_routing_state json outcome id blocked exhausted disk in
      load_provider_state json disk' other ≡ (
        if ok && str_eq id other
        then some (with_routing blocked exhausted (loaded_or_empty json disk id))
        else load_provider_state json disk other)
unfolding update_routing_state
update_routing_state-load json outcome id other blocked exhausted disk round named =
    let ps = with_routing blocked exhausted (loaded_or_empty json disk id) in
    save_provider_state-load json outcome ps disk other round
    ∙ ap
        (λ n.
          if (save_provider_state json outcome ps disk).1 && str_eq n other
          then some ps
          else load_provider_state json disk other)
        named

restore_blocked-until :
    (now later until : Time) (id : String) (m : Manager)
    → now ≤ later
    → blocked_until m id ≡ zero_time
    → before later (blocked_until (restore_blocked now id (pointer until) m) id)
      ≡ before later until
unfolding restore_blocked blocked_until block_until
restore_blocked-until now later until id m h fresh = elim (Bool-cases (is_zero until)) [
  | inl zero_p ↦ ground (arith, h, fresh, zero_p)
  | inr some_p ↦ ground (arith, h, fresh, some_p, get-put m.blocked id id until, eq_iff id id)
]

restore_exhausted-until :
    (now later until : Time) (id : String) (m : Manager)
    → now ≤ later
    → exhausted_until m id ≡ zero_time
    → (before later (exhausted_until (restore_exhausted now id (pointer until) m) id)
        ≡ before later until)
      × (blocked_until (restore_exhausted now id (pointer until) m) id ≡ blocked_until m id)
unfolding restore_exhausted exhausted_until blocked_until set_exhausted
restore_exhausted-until now later until id m h fresh = elim (Bool-cases (is_zero until)) [
  | inl zero_p ↦ (ground (arith, h, fresh, zero_p), ground (arith, zero_p))
  | inr some_p ↦ (
    ground (arith, h, fresh, some_p, get-put m.exhausted id id until, eq_iff id id),
    ground (arith, some_p),
  )
]

restore_blocked-exhausted :
    (now : Time) (until : Option Time) (id : String) (m : Manager)
    → exhausted_until (restore_blocked now id until m) id ≡ exhausted_until m id
unfolding restore_blocked block_until exhausted_until
restore_blocked-exhausted now none id m = refl
restore_blocked-exhausted now (some until) id m = ground arith

new_blocked : (id : String) → blocked_until Providers.new id ≡ zero_time
unfolding blocked_until Providers.new
new_blocked id = ground (arith, get-empty {V = Time} id)

new_exhausted : (id : String) → exhausted_until Providers.new id ≡ zero_time
unfolding exhausted_until Providers.new
new_exhausted id = ground (arith, get-empty {V = Time} id)

restored-get_state :
    (id : String) (m : Manager) (health : Monitor) (now later blocked exhausted : Time)
    → now ≤ later
    → blocked_until m id ≡ blocked
    → exhausted_until m id ≡ exhausted
    → get_state later health
        (restore_exhausted now id
          (pointer exhausted)
          (restore_blocked now id (pointer blocked) Providers.new))
        id
      ≡ get_state later health m id
unfolding get_state
restored-get_state id m health now later blocked exhausted h b e =
    let st = restore_blocked now id (pointer blocked) Providers.new in
    let fresh : blocked_until Providers.new id ≡ zero_time = new_blocked id in
    let clear : exhausted_until st id ≡ zero_time =
      restore_blocked-exhausted now (pointer blocked) id Providers.new ∙ new_exhausted id in
    let (later_exhausted, same_blocked) =
      restore_exhausted-until now later exhausted id st h clear in
    let later_blocked = restore_blocked-until now later blocked id Providers.new h fresh in
    ground (arith, later_exhausted, same_blocked, later_blocked, b, e)

-- A restart keeps what the router knows of a provider: where a manager's two times for it have been
-- saved and the file is read back at `now`, a fresh manager into which `main` puts what it has read is,
-- from `now` on and at every later time, in the state in which the old manager would be. The
-- decoder reads the written state back, and the file carried the provider's name before.
pub restore_state-get_state :
    (json : Json ProviderState) (disk : Disk) (m : Manager) (id : String) (ps : ProviderState)
    (health : Monitor) (lim : Tracker) (now later : Time)
    → Survives json
        (with_routing (blocked_until m id) (exhausted_until m id) (loaded_or_empty json disk id))
    → (loaded_or_empty json disk id).name ≡ id
    → load_provider_state json
        (update_routing_state json saved id (blocked_until m id) (exhausted_until m id) disk).0
        id
      ≡ some ps
    → now ≤ later
    → get_state later health (restore_state now id ps (Providers.new, lim)).0 id
      ≡ get_state later health m id
unfolding restore_state get_state update_routing_state save_provider_state Providers.new
restore_state-get_state json disk m id ps health lim now later round named read h =
    let kept =
      with_routing (blocked_until m id) (exhausted_until m id) (loaded_or_empty json disk id) in
    let stored : some kept ≡ some ps = ground (
      arith,
      eq_iff id id,
      read,
      update_routing_state-load json saved id id (blocked_until m id) (exhausted_until m id) disk
          round named,
    ) in
    let same : kept ≡ ps = cc stored in
    subst
      (λ x.
        get_state later health (restore_state now id x (Providers.new, lim)).0 id
        ≡ get_state later health m id)
      same
      (restored-get_state id m health now later (blocked_until m id) (exhausted_until m id) h refl
        refl)
