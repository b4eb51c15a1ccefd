-- ===== src/GoMap.antt =====
-- Go's `map[string]V`. The entries are private to this module: clients have the laws of `map_laws`.
-- `keys` lists the keys in order of insertion, one of the orders in which Go's `range` may go.
use local_router.Prelude.{
  String, ◌≡◌, refl, true, Option, none, some, List, [], ◌∷◌, any, arith, str_eq, eq_iff,
  if◌then◌else◌, Bool-cases, inl, inr,
}

pub record GoMap {ℓ} (V : Type ℓ) : Type ℓ where
  entries : List (String × V)

module _ {ℓ} {V : Type ℓ} where
  read : String → List (String × V) → Option V
  read k [] = none
  read k ((j, v) ∷ es) = let later = read k es in if str_eq j k then some v else later

  -- A write to a present key keeps its place; a new key goes to the end.
  write : String → V → List (String × V) → List (String × V)
  write k v [] = (k, v) ∷ []
  write k v ((j, w) ∷ es) =
      let later = write k v es in if str_eq j k then (k, v) ∷ es else (j, w) ∷ later

  erase : String → List (String × V) → List (String × V)
  erase k [] = []
  erase k ((j, w) ∷ es) = let later = erase k es in if str_eq j k then later else (j, w) ∷ later

  names : List (String × V) → List String
  names [] = []
  names ((j, w) ∷ es) = j ∷ names es

  -- make(map[string]V)
  unfoldable pub empty : GoMap V
  empty = record { entries = [] }

  -- v, ok := m[k]
  unfoldable pub get : GoMap V → String → Option V
  unfolding read
  get m k = read k m.entries

  -- m[k] = v
  unfoldable pub put : GoMap V → String → V → GoMap V
  unfolding write
  put m k v = record { entries = write k v m.entries }

  -- delete(m, k)
  unfoldable pub remove : GoMap V → String → GoMap V
  unfolding erase
  remove m k = record { entries = erase k m.entries }

  unfoldable pub keys : GoMap V → List String
  unfolding names
  keys m = names m.entries

  read-write :
      (k j : String) (v : V) (es : List (String × V))
      → read j (write k v es) ≡ (if str_eq k j then some v else read j es)
  unfolding read write
  read-write k j v [] = refl
  read-write k j v ((i, w) ∷ es) =
      ground (arith, eq_iff k j, eq_iff i k, eq_iff i j, read-write k j v es)

  read-erase :
      (k j : String) (es : List (String × V))
      → read j (erase k es) ≡ (if str_eq k j then none else read j es)
  unfolding read erase
  read-erase k j [] = ground arith
  read-erase k j ((i, w) ∷ es) =
      ground (arith, eq_iff k j, eq_iff i k, eq_iff i j, read-erase k j es)

  names-read :
      (k : String) (v : V) (es : List (String × V))
      → read k es ≡ some v
      → any (λ j. str_eq j k) (names es) ≡ true
  unfolding read names any
  names-read k v [] h = absurd (ground (arith, h))
  names-read k v ((j, w) ∷ es) h = elim (Bool-cases (str_eq j k)) [
    | inl same ↦ ground (arith, same)
    | inr differ ↦ ground (arith, names-read k v es (ground (arith, h, differ)))
  ]

  -- A key that has a value is among the keys.
  pub keys-get :
      (m : GoMap V) (k : String) (v : V) → get m k ≡ some v → any (λ j. str_eq j k) (keys m) ≡ true
  unfolding get keys
  keys-get m k v h = names-read k v m.entries h

  pub get-empty : (k : String) → get empty k ≡ none
  unfolding get empty
  get-empty k = refl

  pub get-put :
      (m : GoMap V) (k j : String) (v : V)
      → get (put m k v) j ≡ (if str_eq k j then some v else get m j)
  unfolding get put
  get-put m k j v = read-write k j v m.entries

  pub get-remove :
      (m : GoMap V) (k j : String) → get (remove m k) j ≡ (if str_eq k j then none else get m j)
  unfolding get remove
  get-remove m k j = read-erase k j m.entries

pub ruleset map_laws = (get-empty, get-put, get-remove)
