-- ===== src/Adapters/Scan.antt =====
-- The goroutine of `Stream` in internal/provider/*/adapter.go: a scanner goes through the lines of the
-- body, and what an adapter makes of a line is the parameter `step`.
use local_router.Prelude.{
  ℕ, zero, suc, String, Bool, false, Option, none, some, List, [], ◌∷◌, ◌++◌, map, ltb, length,
  if◌then◌else◌,
}
use local_router.Provider.{Error, Chunk, StreamStart}
use local_router.Adapters.Http.{Scanned}

-- What a line means: go on, end the stream, send a chunk for each of some texts, or send an error.
pub data Action : Type 0 where
  skip stop : Action
  emit : List String → Action
  fail : Error → Action

abbrev pub delta_chunk : String → Chunk
delta_chunk text = record { delta = text; done = false; err = none }

abbrev pub error_chunk : Error → Chunk
error_chunk e = record { delta = ""; done = false; err = some e }

abbrev pub take {ℓ} : {A : Type ℓ} → ℕ → List A → List A
take zero xs = []
take (suc n) [] = []
take (suc n) (x ∷ xs) = x ∷ take n xs

-- Whether the context is done before `n` chunks of the line are sent.
abbrev pub is_cut : Option ℕ → ℕ → Bool
is_cut none n = false
is_cut (some k) n = ltb k n

-- The chunks from this line on, where `rest` are those of the later lines.
unfoldable pub perform : Action → Option ℕ → List Chunk → List Chunk
perform skip sends rest = rest
perform stop sends rest = []
perform (emit texts) none rest = map delta_chunk texts ++ rest
perform (emit texts) (some k) rest =
    if ltb k (length texts) then map delta_chunk (take k texts) else map delta_chunk texts ++ rest
perform (fail e) sends rest = if is_cut sends 1 then [] else error_chunk e ∷ []

unfoldable pub finish : Option Error → List Chunk
finish none = []
finish (some e) = error_chunk e ∷ []

module _ {St : Type 0} (step : St → String → St × Action) where
  unfoldable pub scan_chunks : St → List Scanned → Option Error → List Chunk
  unfolding perform finish
  scan_chunks st [] scan_error = finish scan_error
  scan_chunks st (l ∷ ls) scan_error =
      let (st', action) = step st l.text in
      let rest = scan_chunks st' ls scan_error in
      if l.is_done then [] else perform action l.sends rest

-- What the first receive of the channel yields, and the rest.
unfoldable pub start_of : List Chunk → StreamStart
start_of [] = record { first = none; rest = [] }
start_of (c ∷ cs) = record { first = some c; rest = cs }
