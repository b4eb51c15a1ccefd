-- ===== src/Provider.antt =====
-- internal/provider/provider.go: requests, responses, chunks and errors. A provider itself is a record
-- of functions over a state `S`: the adapters talk to services over HTTP, so what a call does to the
-- router's state (time that passes, other requests that run meanwhile) belongs to the call.
use local_router.Prelude.{
  ℕ, zero, suc, ◌/◌, ◌%◌, String, Bool, true, false, Option, none, some, List, [], ◌∷◌, ◌==◌,
  if◌then◌else◌, get_elem?, or_zero,
}
use Prim.Native.String.{◌++◌ as str_append}
use local_router.Prelude.Int.{ℤ}

-- A float64 by its bits: the program only copies these.
abbrev pub Float64 : Type 0
Float64 = ℕ

pub record Message : Type 0 where
  pub role : String
  pub content : String

-- The field `Raw` of the source is set and read nowhere.
pub record Request : Type 0 where
  pub model : String
  pub messages : List Message
  pub stream : Bool
  pub api_key : String
  pub temperature : Option Float64
  pub top_p : Option Float64
  pub max_tokens : Option ℤ
  pub seed : Option ℤ

pub record Usage : Type 0 where
  pub prompt_tokens : ℤ
  pub completion_tokens : ℤ

pub record Response : Type 0 where
  pub id : String
  pub model : String
  pub content : String
  pub usage : Usage

pub record HttpError : Type 0 where
  pub status_code : ℕ
  pub body : String

-- The errors that the program tells apart: an `*HTTPError`, `context.DeadlineExceeded`, an error that
-- wraps another one, and any other by its message.
pub data Error : Type 0 where
  http : HttpError → Error
  deadline_exceeded : Error
  wrapped : String → Error → Error
  other : String → Error

-- errors.As(err, &httpErr)
unfoldable pub as_http : Error → Option HttpError
as_http (http e) = some e
as_http deadline_exceeded = none
as_http (wrapped message e) = as_http e
as_http (other message) = none

-- herr, ok := err.(*HTTPError), which does not look below a wrapping
unfoldable pub assert_http : Error → Option HttpError
assert_http (http e) = some e
assert_http deadline_exceeded = none
assert_http (wrapped message e) = none
assert_http (other message) = none

-- errors.Is(err, context.DeadlineExceeded)
unfoldable pub is_deadline : Error → Bool
is_deadline (http e) = false
is_deadline deadline_exceeded = true
is_deadline (wrapped message e) = is_deadline e
is_deadline (other message) = false

digit : ℕ → String
digit d = or_zero "9" (get_elem? ("0" ∷ "1" ∷ "2" ∷ "3" ∷ "4" ∷ "5" ∷ "6" ∷ "7" ∷ "8" ∷ []) d)

-- Decimal digits, with one unit of fuel for each.
unfoldable pub decimal : ℕ → ℕ → String
unfolding digit
decimal zero n = ""
decimal (suc fuel) n =
    let more = str_append (decimal fuel (n / 10)) (digit (n % 10)) in
    if n / 10 == 0 then digit (n % 10) else more

-- A status code has three digits; the fuel serves for twenty.
unfoldable pub error_message : Error → String
unfolding decimal digit
error_message (http e) =
    str_append "HTTP " (str_append (decimal 20 e.status_code) (str_append ": " e.body))
error_message deadline_exceeded = "context deadline exceeded"
error_message (wrapped message e) = str_append message (str_append ": " (error_message e))
error_message (other message) = message

pub record Chunk : Type 0 where
  pub delta : String
  pub done : Bool
  pub err : Option Error

-- A stream as the router sees it: what its first receive yields (`none` if the channel is closed),
-- and the chunks behind it.
pub record StreamStart : Type 0 where
  pub first : Option Chunk
  pub rest : List Chunk

pub data Outcome {ℓ} (A : Type ℓ) : Type ℓ where
  ok : A → Outcome A
  err : Error → Outcome A

-- `Complete`, `Stream` together with the wait for the first chunk, `HealthCheck`, and `ListModels` of
-- the providers that are ModelListers.
pub record Provider (S : Type 0) : Type 0 where
  pub id : String
  pub complete : Request → S → Outcome Response × S
  pub stream : Request → S → Outcome StreamStart × S
  pub health_check : S → Option Error × S
  pub list_models : Option (S → Outcome (List String) × S)
