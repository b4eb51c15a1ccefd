-- ===== src/Router/Retry.antt =====
-- `retryAfterDuration` and `isModelLevelError` of internal/router/router.go.
use local_router.Prelude.{
  ℕ, ◌≡◌, ◌⊎◌, refl, inl, inr, Bool, false, ◌||◌, Option, none, some, List, [], ◌∷◌, ◌==◌,
  if◌then◌else◌, codes, arith, Option-cases, Bool-cases,
}
use mathlib.Core.List.{reverse}
use local_router.Prelude.Int.{pos, ◌≤ℤ◌, ltb_ℤ, leb_ℤ}
use local_router.Prelude.Time.{Duration}
use local_router.Provider.{Error, as_http}

unfoldable pub is_model_level_error : Error → Bool
is_model_level_error err = elim (as_http err) [
  | none ↦ false
  | some e ↦ e.status_code == 429 || e.status_code == 413
]

unfoldable pub strip_prefix : List ℕ → List ℕ → Option (List ℕ)
strip_prefix [] text = some text
strip_prefix (c ∷ marker) [] = none
strip_prefix (c ∷ marker) (d ∷ text) =
    let rest = strip_prefix marker text in if c == d then rest else none

-- `body[strings.Index(body, marker)+len(marker):]`, or `none` where the marker does not occur.
unfoldable pub after_marker : List ℕ → List ℕ → Option (List ℕ)
unfolding strip_prefix
after_marker marker [] = strip_prefix marker []
after_marker marker (c ∷ text) =
    let later = after_marker marker text in
    elim (strip_prefix marker (c ∷ text)) [ some rest ↦ some rest | none ↦ later ]

-- One of the characters of " \n\t\"\\".
abbrev ends_duration : ℕ → Bool
ends_duration c = c == 32 || c == 10 || c == 9 || c == 34 || c == 92

unfoldable pub until_end : List ℕ → List ℕ
until_end [] = []
until_end (c ∷ text) = let rest = until_end text in if ends_duration c then [] else c ∷ rest

-- One of the characters of ".,;".
abbrev is_trimmed : ℕ → Bool
is_trimmed c = c == 46 || c == 44 || c == 59

unfoldable pub drop_trimmed : List ℕ → List ℕ
drop_trimmed [] = []
drop_trimmed (c ∷ text) = let rest = drop_trimmed text in if is_trimmed c then rest else c ∷ text

-- strings.TrimRight(raw, ".,;")
unfoldable pub trim_right : List ℕ → List ℕ
unfolding drop_trimmed
trim_right text = reverse (drop_trimmed (reverse text))

abbrev pub second : Duration
second = pos 1000000000

unfoldable pub clamp_duration : Option Duration → Duration → Duration
clamp_duration none fallback = fallback
clamp_duration (some d) fallback =
    if leb_ℤ d (pos 0) then fallback else if ltb_ℤ d second then second else d

-- What follows "retry in ", if the marker is there.
unfoldable pub parse_delay : (List ℕ → Option Duration) → Option (List ℕ) → Duration → Duration
unfolding until_end trim_right clamp_duration
parse_delay parse none fallback = fallback
parse_delay parse (some raw) fallback = clamp_duration (parse (trim_right (until_end raw))) fallback

unfoldable pub retry_after_duration : (List ℕ → Option Duration) → Error → Duration → Duration
unfolding after_marker parse_delay
retry_after_duration parse err fallback = elim (as_http err) [
  | none ↦ fallback
  | some e ↦ parse_delay parse (after_marker (codes "retry in ") (codes e.body)) fallback
]

clamp_duration_bounds :
    (d : Option Duration) (fallback : Duration)
    → (clamp_duration d fallback ≡ fallback) ⊎ (second ≤ℤ clamp_duration d fallback)
unfolding clamp_duration
clamp_duration_bounds none fallback = inl refl
clamp_duration_bounds (some d) fallback = elim (Bool-cases (leb_ℤ d (pos 0))) [
  | inl small ↦ rw small (inl refl)
  | inr large ↦ elim (Bool-cases (ltb_ℤ d second)) [
    | inl short ↦ rw (large, short) (inr (omega arith))
    | inr long ↦ rw (large, long) (inr (ground arith))
  ]
]

parse_delay_bounds :
    (parse : List ℕ → Option Duration) (raw : Option (List ℕ)) (fallback : Duration)
    → let d = parse_delay parse raw fallback in (d ≡ fallback) ⊎ (second ≤ℤ d)
unfolding parse_delay
parse_delay_bounds parse none fallback = inl refl
parse_delay_bounds parse (some raw) fallback =
    clamp_duration_bounds (parse (trim_right (until_end raw))) fallback

-- Whatever the body of the error says and however the text is parsed, the result is the given
-- fallback or at least a second.
pub retry_after_duration_bounds :
    (parse : List ℕ → Option Duration) (err : Error) (fallback : Duration)
    → let d = retry_after_duration parse err fallback in (d ≡ fallback) ⊎ (second ≤ℤ d)
unfolding retry_after_duration
retry_after_duration_bounds parse err fallback = elim (Option-cases (as_http err)) [
  | inl plain ↦ rw (plain, retry_after_duration) (inl refl)
  | inr (e, is_http) ↦
      rw (is_http, retry_after_duration)
        (parse_delay_bounds parse (after_marker (codes "retry in ") (codes e.body)) fallback)
]
