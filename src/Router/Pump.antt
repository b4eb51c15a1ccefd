-- ===== src/Router/Pump.antt =====
-- The goroutine at the end of `Stream` in internal/router/router.go, which passes the chunks on to the
-- channel that the handler of internal/server/sse.go reads, in its interleavings with the handler.
use local_router.Prelude.{
  ◌≡◌, refl, ap, sym, ◌∙◌, inl, inr, ◌⊎◌, ℕ, ◌+◌, ◌<◌, Bool, true, false, Option, none, some, List,
  [], ◌∷◌, ◌++◌, length, arith, subst,
}
use local_router.Provider.{Chunk}

-- `upstream` is what the provider's channel still yields before it is closed. `holding` is the chunk
-- that the goroutine has received and not sent yet; `buffer` is the place of the channel `out`;
-- `released` says that the goroutine has ended, which closes `out` and gives the slots back. The
-- handler reads while `reading` holds, and `received` is what it has read.
pub record Pipe : Type 0 where
  pub upstream : List Chunk
  pub holding : Option Chunk
  pub buffer : Option Chunk
  pub released : Bool
  pub reading : Bool
  pub received : List Chunk

-- `out := make(chan provider.Chunk, 1); out <- first`
unfoldable pub start : Chunk → List Chunk → Pipe
start first rest = record {
  upstream = rest;
  holding = none;
  buffer = some first;
  released = false;
  reading = true;
  received = [];
}

-- One step of the goroutine (`pull`, `push`, `close`) or of the handler.
pub data Step : Pipe → Pipe → Type 0 where
  pull :
      (c : Chunk) (cs : List Chunk) (b : Option Chunk) (reading : Bool) (got : List Chunk)
      → Step
          (record {
            upstream = c ∷ cs;
            holding = none;
            buffer = b;
            released = false;
            reading = reading;
            received = got;
          })
          (record {
            upstream = cs;
            holding = some c;
            buffer = b;
            released = false;
            reading = reading;
            received = got;
          })
  push :
      (c : Chunk) (cs : List Chunk) (reading : Bool) (got : List Chunk)
      → Step
          (record {
            upstream = cs;
            holding = some c;
            buffer = none;
            released = false;
            reading = reading;
            received = got;
          })
          (record {
            upstream = cs;
            holding = none;
            buffer = some c;
            released = false;
            reading = reading;
            received = got;
          })
  close :
      (b : Option Chunk) (reading : Bool) (got : List Chunk)
      → Step
          (record {
            upstream = [];
            holding = none;
            buffer = b;
            released = false;
            reading = reading;
            received = got;
          })
          (record {
            upstream = [];
            holding = none;
            buffer = b;
            released = true;
            reading = reading;
            received = got;
          })
  read :
      (c : Chunk) (cs : List Chunk) (h : Option Chunk) (released : Bool) (got : List Chunk)
      → Step
          (record {
            upstream = cs;
            holding = h;
            buffer = some c;
            released = released;
            reading = true;
            received = got;
          })
          (record {
            upstream = cs;
            holding = h;
            buffer = none;
            released = released;
            reading = true;
            received = got ++ c ∷ [];
          })
  leave :
      (cs : List Chunk) (h b : Option Chunk) (released : Bool) (got : List Chunk)
      → Step
          (record {
            upstream = cs;
            holding = h;
            buffer = b;
            released = released;
            reading = true;
            received = got;
          })
          (record {
            upstream = cs;
            holding = h;
            buffer = b;
            released = released;
            reading = false;
            received = got;
          })

pub data Steps : Pipe → Pipe → Type 0 where
  here : (p : Pipe) → Steps p p
  then : (p q r : Pipe) → Steps p q → Step q r → Steps p r

abbrev pub listed : Option Chunk → List Chunk
listed none = []
listed (some c) = c ∷ []

-- All chunks, in the order in which they leave the pipe.
abbrev pub contents : Pipe → List Chunk
contents p = p.received ++ (listed p.buffer ++ (listed p.holding ++ p.upstream))

append_assoc : (xs ys zs : List Chunk) → (xs ++ ys) ++ zs ≡ xs ++ (ys ++ zs)
append_assoc [] ys zs = refl
append_assoc (x ∷ xs) ys zs = ap (λ l. x ∷ l) (append_assoc xs ys zs)

step-contents : (p q : Pipe) → Step p q → contents q ≡ contents p
step-contents p q (pull c cs b reading got) = refl
step-contents p q (push c cs reading got) = refl
step-contents p q (close b reading got) = refl
step-contents p q (read c cs h released got) = append_assoc got (c ∷ []) (listed h ++ cs)
step-contents p q (leave cs h b released got) = refl

-- Whatever the goroutine and the handler do, and in whatever order: what the handler has read, and
-- after it what is buffered, held and still to come, are the chunks of the stream in their order.
-- No chunk is lost, doubled or overtaken.
pub contents-Steps :
    (first : Chunk) (rest : List Chunk) (p : Pipe)
    → Steps (start first rest) p
    → contents p ≡ first ∷ rest
unfolding start
contents-Steps first rest p (here q) = refl
contents-Steps first rest p (then q r p' before step) =
    step-contents r p step ∙ contents-Steps first rest r before

-- ### The handler stays

abbrev weigh : Option Chunk → ℕ → ℕ
weigh none n = 0
weigh (some c) n = n

abbrev weigh_flag : Bool → ℕ
weigh_flag true = 0
weigh_flag false = 1

-- The steps that are left at most.
abbrev pub weight : Pipe → ℕ
weight p =
    length p.upstream
    + length p.upstream
    + length p.upstream
    + weigh p.holding 2
    + weigh p.buffer 1
    + weigh_flag p.released

-- A pipe that only its handler can leave.
abbrev pub IsOver : Pipe → Type 0
IsOver p = (p.released ≡ true) × (p.buffer ≡ none)

-- The goroutine ends with nothing in its hands.
abbrev IsTidy : Pipe → Type 0
IsTidy p = p.released ≡ true → (p.upstream ≡ []) × (p.holding ≡ none)

step-IsTidy : (p q : Pipe) → Step p q → IsTidy p → IsTidy q
step-IsTidy p q (pull c cs b reading got) tidy h = absurd (ground (arith, h))
step-IsTidy p q (push c cs reading got) tidy h = absurd (ground (arith, h))
step-IsTidy p q (close b reading got) tidy h = (refl, refl)
step-IsTidy p q (read c cs h released got) tidy e = tidy e
step-IsTidy p q (leave cs h b released got) tidy e = tidy e

IsTidy-Steps : (p q : Pipe) → Steps p q → IsTidy p → IsTidy q
IsTidy-Steps p q (here r) tidy = tidy
IsTidy-Steps p q (then r s t before step) tidy = step-IsTidy s t step (IsTidy-Steps r s before tidy)

-- A step that makes the pipe lighter, and after which the handler is still there.
abbrev pub GoesOn : Pipe → Type 0
GoesOn p = (q : Pipe) × Step p q × (q.reading ≡ true) × (weight q < weight p)

goes_on :
    (up : List Chunk) (h b : Option Chunk) (released : Bool) (got : List Chunk) (p : Pipe)
    → p ≡ record {
      upstream = up;
      holding = h;
      buffer = b;
      released = released;
      reading = true;
      received = got;
    }
    → IsOver p ⊎ GoesOn p
goes_on up h (some c) released got p e =
    subst (λ x. IsOver x ⊎ GoesOn x) (sym e) (inr (_, read c up h released got, refl, omega arith))
goes_on up h none true got p e = subst (λ x. IsOver x ⊎ GoesOn x) (sym e) (inl (refl, refl))
goes_on up (some c) none false got p e =
    subst (λ x. IsOver x ⊎ GoesOn x) (sym e) (inr (_, push c up true got, refl, omega arith))
goes_on (c ∷ cs) none none false got p e =
    subst (λ x. IsOver x ⊎ GoesOn x) (sym e) (inr (_, pull c cs none true got, refl, omega arith))
goes_on [] none none false got p e =
    subst (λ x. IsOver x ⊎ GoesOn x) (sym e) (inr (_, close none true got, refl, omega arith))

append_nil : (xs : List Chunk) → xs ++ [] ≡ xs
append_nil [] = refl
append_nil (x ∷ xs) = ap (λ l. x ∷ l) (append_nil xs)

over-received : (p : Pipe) → IsTidy p → IsOver p → p.received ≡ contents p
over-received p tidy (released, empty) =
    let (up, held) = tidy released in sym (rw (up, held, empty) (append_nil p.received))

-- While the handler reads on, the stream comes to its end: either the goroutine has ended, the slots
-- are given back and the handler has read every chunk of the stream in order, or one of the two
-- can take a step that leaves strictly fewer steps to take.
pub chunks_arrive :
    (first : Chunk) (rest : List Chunk) (p : Pipe)
    → Steps (start first rest) p
    → p.reading ≡ true
    → ((p.released ≡ true) × (p.received ≡ first ∷ rest)) ⊎ GoesOn p
unfolding start
chunks_arrive first rest p run reading =
    let tidy = IsTidy-Steps (start first rest) p run (λ h. absurd (ground (arith, h))) in
    elim (goes_on p.upstream p.holding p.buffer p.released p.received p (rw reading refl)) [
      | inl over ↦ inl (over.0, over-received p tidy over ∙ contents-Steps first rest p run)
      | inr more ↦ inr more
    ]

-- ### The handler leaves

-- Neither side can move, and the slots are not given back.
abbrev pub IsStuck : Pipe → Type 0
IsStuck p = (p.released ≡ false) × (¬ ((q : Pipe) × Step p q))

left_behind : Chunk → Chunk → List Chunk → Pipe
left_behind first c cs = record {
  upstream = cs;
  holding = some c;
  buffer = some first;
  released = false;
  reading = false;
  received = [];
}

no_step :
    (first c : Chunk) (cs : List Chunk) (p q : Pipe) → Step p q → p ≡ left_behind first c cs → ⊥
unfolding left_behind
no_step first c cs p q (pull d ds b reading got) e = absurd (ground (arith, ap (λ x. x.holding) e))
no_step first c cs p q (push d ds reading got) e = absurd (ground (arith, ap (λ x. x.buffer) e))
no_step first c cs p q (close b reading got) e = absurd (ground (arith, ap (λ x. x.holding) e))
no_step first c cs p q (read d ds h released got) e = absurd (ground (arith, ap (λ x. x.reading) e))
no_step first c cs p q (leave ds h b released got) e =
    absurd (ground (arith, ap (λ x. x.reading) e))

-- For every stream of two chunks or more there is an order of steps in which the handler leaves and the
-- goroutine is stuck from then on with a chunk in its hands: the slots of the stream are never
-- given back.
pub slots_leak :
    (first c : Chunk) (cs : List Chunk) → (p : Pipe) × Steps (start first (c ∷ cs)) p × IsStuck p
unfolding start left_behind
slots_leak first c cs =
    let begun = start first (c ∷ cs) in
    (
      left_behind first c cs,
      then _ _ _ (then _ _ _ (here begun) (pull c cs (some first) true []))
          (leave cs (some c) (some first) false []),
      (refl, λ move. no_step first c cs (left_behind first c cs) move.0 move.1 refl),
    )
