-- ===== src/Limits/Interleaving.antt =====
-- The compare-and-swap loops of `TryAcquire` and `Release` (internal/limits/tracker.go), run by
-- several threads. One step of a thread is one atomic operation on `active`; a schedule lists which
-- thread moves next.
use local_router.Prelude.{
  ℕ, zero, suc, ◌+◌, ◌≡◌, refl, List, [], ◌∷◌, arith, All, ap, ◌∙◌, if◌then◌else◌,
}
use local_router.Prelude.Int.{ℤ, pos, negsuc, ◌+ℤ◌, ◌≤ℤ◌, ◌<ℤ◌, leb_ℤ, eqb_ℤ}

-- Where a thread stands. A `loaded` thread has read `active` into `cur` and is about to swap.
pub data Pc : Type 0 where
  idle acquiring holding releasing : Pc
  acquire_loaded release_loaded : ℤ → Pc

-- A thread that is idle calls `TryAcquire`, and one that holds a slot calls `Release`. A refused
-- thread is idle again.
pub thread_step : ℤ → Pc → ℤ → Pc × ℤ
thread_step limit idle active = (acquiring, active)
thread_step limit acquiring active =
    if eqb_ℤ limit (pos 0) then (holding, active +ℤ pos 1) else (acquire_loaded active, active)
thread_step limit (acquire_loaded cur) active =
    if leb_ℤ limit cur
    then (idle, active)
    else if eqb_ℤ active cur
    then (holding, cur +ℤ pos 1)
    else (acquiring, active)
thread_step limit holding active = (releasing, active)
thread_step limit releasing active = (release_loaded active, active)
thread_step limit (release_loaded cur) active =
    if leb_ℤ cur (pos 0)
    then (idle, active)
    else if eqb_ℤ active cur
    then (idle, cur +ℤ negsuc 0)
    else (releasing, active)

-- Thread `i` moves; a number that names no thread does nothing.
pub step_at : ℤ → ℕ → List Pc → ℤ → List Pc × ℤ
step_at limit i [] active = ([], active)
step_at limit zero (p ∷ threads) active =
    let (p', active') = thread_step limit p active in (p' ∷ threads, active')
step_at limit (suc i) (p ∷ threads) active =
    let (threads', active') = step_at limit i threads active in (p ∷ threads', active')

pub run : ℤ → List ℕ → List Pc → ℤ → List Pc × ℤ
run limit [] threads active = (threads, active)
run limit (i ∷ schedule) threads active =
    let (threads', active') = step_at limit i threads active in run limit schedule threads' active'

-- A thread owns a slot from its successful swap to the swap that gives the slot back.
abbrev pub owned : Pc → ℕ
owned holding = 1
owned releasing = 1
owned (release_loaded cur) = 1
owned idle = 0
owned acquiring = 0
owned (acquire_loaded cur) = 0

abbrev pub held : List Pc → ℕ
held [] = 0
held (p ∷ threads) = owned p + held threads

-- The value that a releasing thread has read is positive, so `Release` never gives up.
abbrev HasRead : Pc → Type 0
HasRead (release_loaded cur) = pos 0 <ℤ cur
HasRead _ = Unit {0}

record Moved (limit : ℤ) (n : ℕ) (p : Pc) (active : ℤ) : Type 0 where
  counted : active ≡ pos (n + owned p)
  capped : pos 0 <ℤ limit → active ≤ℤ limit
  reads : HasRead p

thread_step-Moved :
    (limit : ℤ) (n : ℕ) (p : Pc) (active : ℤ)
    → pos 0 ≤ℤ limit
    → Moved limit n p active
    → let (p', active') = thread_step limit p active in Moved limit n p' active'
unfolding thread_step ◌+ℤ◌
thread_step-Moved limit n idle active h m = ground arith
thread_step-Moved limit n p active h m = ground arith

-- `n` slots are owned by threads that stand before these.
pub record Inv (limit : ℤ) (n : ℕ) (threads : List Pc) (active : ℤ) : Type 0 where
  pub counted : active ≡ pos (n + held threads)
  pub capped : pos 0 <ℤ limit → active ≤ℤ limit
  pub reads : All HasRead threads

step_at-Inv :
    (limit : ℤ) (n i : ℕ) (threads : List Pc) (active : ℤ)
    → pos 0 ≤ℤ limit
    → Inv limit n threads active
    → let (threads', active') = step_at limit i threads active in Inv limit n threads' active'
unfolding step_at
step_at-Inv limit n i [] active h v = v
step_at-Inv limit n zero (p ∷ threads) active h v =
    let (p', active') = thread_step limit p active in
    let m = thread_step-Moved limit (n + held threads) p active h (record {
      counted = v.counted ∙ ap pos (omega arith);
      capped = v.capped;
      reads = v.reads.0;
    }) in
    record {
      counted = m.counted ∙ ap pos (omega arith);
      capped = m.capped;
      reads = (m.reads, v.reads.1);
    }
step_at-Inv limit n (suc i) (p ∷ threads) active h v =
    let ih = step_at-Inv limit (n + owned p) i threads active h (record {
      counted = v.counted ∙ ap pos (omega arith);
      capped = v.capped;
      reads = v.reads.1;
    }) in
    record {
      counted = ih.counted ∙ ap pos (omega arith);
      capped = ih.capped;
      reads = (v.reads.0, ih.reads);
    }

run-Inv :
    (limit : ℤ) (schedule : List ℕ) (threads : List Pc) (active : ℤ)
    → pos 0 ≤ℤ limit
    → Inv limit 0 threads active
    → let (threads', active') = run limit schedule threads active in Inv limit 0 threads' active'
unfolding run
run-Inv limit [] threads active h v = v
run-Inv limit (i ∷ schedule) threads active h v =
    let (threads', active') = step_at limit i threads active in
    run-Inv limit schedule threads' active' h (step_at-Inv limit 0 i threads active h v)

abbrev pub all_idle : ℕ → List Pc
all_idle zero = []
all_idle (suc k) = idle ∷ all_idle k

all_idle-Inv : (limit : ℤ) (k : ℕ) → pos 0 ≤ℤ limit → Inv limit 0 (all_idle k) (pos 0)
all_idle-Inv limit k h = record {
  counted = ap pos (omega (arith, none k));
  capped = λ p. h;
  reads = quiet k;
}
  where
    none : (j : ℕ) → held (all_idle j) ≡ 0
    none zero = refl
    none (suc j) = omega (arith, none j)

    quiet : (j : ℕ) → All HasRead (all_idle j)
    quiet zero = tt
    quiet (suc j) = (tt, quiet j)

-- Any number of threads acquire and release slots in any interleaving of their atomic steps. At
-- every moment `active` is the number of slots that threads own, so no update is lost, and where
-- the limit is positive no more slots than the limit are owned.
pub run-slots :
    (limit : ℤ) (k : ℕ) (schedule : List ℕ)
    → pos 0 ≤ℤ limit
    → let (threads, active) = run limit schedule (all_idle k) (pos 0) in
      (active ≡ pos (held threads)) × (pos 0 <ℤ limit → pos (held threads) ≤ℤ limit)
run-slots limit k schedule h =
    let v = run-Inv limit schedule (all_idle k) (pos 0) h (all_idle-Inv limit k h) in
    (v.counted ∙ ap pos (omega arith), λ p. ground (arith, v.counted, v.capped p))
