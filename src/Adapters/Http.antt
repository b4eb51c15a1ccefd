-- ===== src/Adapters/Http.antt =====
-- Requests and answers over HTTP, as the adapters see them (internal/provider/*/adapter.go).
use Prim.Native.String.{◌++◌ as str_append}
use local_router.Prelude.{
  ℕ, String, Bool, Option, none, some, List, [], ◌∷◌, ◌==◌, not, keep, str_eq, ◌&&◌, if◌then◌else◌,
}
use local_router.Prelude.Int.{ℤ, pos, leb_ℤ}
use local_router.Provider.{Error, http, other, decimal, Outcome, ok, err}

-- A line of a streamed body, with what the request's context does meanwhile: whether it is done when
-- the line has been read, and how many chunks of the line are sent before it is done (`none`: all).
pub record Scanned : Type 0 where
  pub text : String
  pub is_done : Bool
  pub sends : Option ℕ

-- A body: the whole text, its first 512 bytes, and its lines with the error of the scanner, if that
-- is sent before the context is done.
pub record Body : Type 0 where
  pub text : String
  pub head : String
  pub lines : List Scanned
  pub scan_error : Option Error

pub record HttpRequest : Type 0 where
  pub method : String
  pub url : String
  pub headers : List (String × String)
  pub body : String
  pub timeout_ms : ℤ

-- What `http.NewRequestWithContext` and `Do` answer.
pub data HttpReply : Type 0 where
  unreachable : Error → HttpReply
  replied : ℕ → Body → HttpReply

abbrev pub Send : Type 0 → Type 0
Send S = HttpRequest → S → HttpReply × S

-- NewHTTPError(code, body)
abbrev pub new_http_error : ℕ → String → Error
new_http_error code head = http (record { status_code = code; body = head })

-- What all adapters do with an answer before they decode it.
unfoldable pub accepted : HttpReply → Outcome Body
accepted (unreachable e) = err e
accepted (replied code body) = if code == 200 then ok body else err (new_http_error code body.head)

-- `HealthCheck` of the Google and Cohere adapters: an HTTPError without a body.
unfoldable pub checked : HttpReply → Option Error
checked (unreachable e) = some e
checked (replied code body) = if code == 200 then none else some (new_http_error code "")

-- fmt.Errorf("health check: HTTP %d", code), and the same with other labels.
abbrev pub status_error : String → ℕ → Error
status_error label code = other (str_append label (str_append ": HTTP " (decimal 20 code)))

unfoldable pub checked_status : String → HttpReply → Option Error
checked_status label (unreachable e) = some e
checked_status label (replied code body) =
    if code == 200 then none else some (status_error label code)

-- The head of `ListModels`.
unfoldable pub accepted_status : String → HttpReply → Outcome Body
accepted_status label (unreachable e) = err e
accepted_status label (replied code body) =
    if code == 200 then ok body else err (status_error label code)

-- The ids or names that are not empty.
abbrev pub named : List String → List String
named ids = keep (λ id. not (str_eq id "")) ids

unfoldable pub bind {ℓ κ} : {A : Type ℓ} {B : Type κ} → Outcome A → (A → Outcome B) → Outcome B
bind (ok a) f = f a
bind (err e) f = err e

-- fmt.Errorf("decode: %w", err)
unfoldable pub decoded {ℓ} : {A : Type ℓ} → String → Outcome A → Outcome A
decoded label (ok a) = ok a
decoded label (err e) = err (Error.wrapped label e)

-- ListModels, from the answer on.
unfoldable pub read_models :
    String → (String → Outcome (List String)) → HttpReply → Outcome (List String)
unfolding accepted_status bind decoded
read_models label decode reply = bind (accepted_status label reply) (λ body.
    bind (decoded (str_append label ": decode") (decode body.text)) (λ ids. ok (named ids)))

-- strings.TrimRight(s, "/")
unfoldable pub trim_slashes : String → String
trim_slashes String.[] = ""
trim_slashes (String.◌∷◌ c s) =
    let rest = trim_slashes s in
    if str_eq rest "" && str_eq (String.◌∷◌ c String.[]) "/" then "" else String.◌∷◌ c rest

-- `if timeoutMs <= 0 { timeoutMs = fallback }`
abbrev pub positive_or : ℤ → ℤ → ℤ
positive_or fallback ms = if leb_ℤ ms (pos 0) then fallback else ms

abbrev pub text_or : String → String → String
text_or fallback s = if str_eq s "" then fallback else s

abbrev pub default_timeout_ms : ℤ
default_timeout_ms = pos 30000

abbrev pub bearer : String → List (String × String)
bearer key = ("Authorization", str_append "Bearer " key) ∷ []
