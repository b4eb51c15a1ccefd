-- ===== src/Prelude/Lists.antt =====
-- Lists over the native numbers, filters by Boolean tests, and membership by recursion.
use Prim.Native.Nat.{ℕ, zero, suc, ◌+◌, ◌≤◌, ◌<◌}
use mathlib.Core.Path.{◌≡◌, ap, subst, ◌∙◌}
use mathlib.Core.Logic.{◌⊎◌, inl, inr}
use mathlib.Core.Bool.{Bool, true, false, ◌||◌}
use mathlib.Core.Option.{Option, none, some}
use mathlib.Core.List.{List, [], ◌∷◌, ◌++◌}
use native.Mathlib.Omega.{arith}
use local_router.Prelude.Tests.{if◌then◌else◌, Bool-cases}

module _ {ℓ} {A : Type ℓ} where
  abbrev pub length : List A → ℕ
  length [] = 0
  length (x ∷ xs) = suc (length xs)

  pub length-append : (xs ys : List A) → length (xs ++ ys) ≡ length xs + length ys
  length-append [] ys = omega arith
  length-append (x ∷ xs) ys = omega (arith, length-append xs ys)

  abbrev pub get_elem? : List A → ℕ → Option A
  get_elem? [] i = none
  get_elem? (x ∷ xs) zero = some x
  get_elem? (x ∷ xs) (suc i) = get_elem? xs i

  -- The elements that pass a test, in order.
  unfoldable pub keep : (A → Bool) → List A → List A
  keep p [] = []
  keep p (x ∷ xs) = let rest = keep p xs in if p x then x ∷ rest else rest

  unfoldable pub any : (A → Bool) → List A → Bool
  any p [] = false
  any p (x ∷ xs) = p x || any p xs

  -- `All P xs` and `Some P xs` compute to tuples and sums.
  abbrev pub All {κ} : (A → Type κ) → List A → Type κ
  All P [] = Unit
  All P (x ∷ xs) = P x × All P xs

  abbrev pub Some : (A → Type 0) → List A → Type 0
  Some P [] = ⊥
  Some P (x ∷ xs) = P x ⊎ Some P xs

module _ {A : Type 0} where
  -- Membership by recursion, so that a position is kept and tactics read it.
  abbrev pub In : A → List A → Type 0
  In a xs = Some (λ x. x ≡ a) xs

  -- A list around one of its elements.
  pub In-parts :
      (a : A) (xs : List A)
      → In a xs
      → (front : List A) × (behind : List A) × (xs ≡ front ++ a ∷ behind)
  In-parts a [] m = absurd m
  In-parts a (x ∷ xs) (inl e) = ([], xs, ap (λ y. y ∷ xs) e)
  In-parts a (x ∷ xs) (inr m) =
      let (front, behind, e) = In-parts a xs m in (x ∷ front, behind, ap (λ ys. x ∷ ys) e)

  pub length-keep-le : (p : A → Bool) (xs : List A) → length (keep p xs) ≤ length xs
  unfolding keep
  length-keep-le p [] = omega arith
  length-keep-le p (x ∷ xs) = ground (arith, length-keep-le p xs)

  -- A filter that drops some element shortens the list.
  pub length-keep-lt :
      (p : A → Bool) (a : A) (xs : List A) → In a xs → p a ≡ false → length (keep p xs) < length xs
  unfolding keep
  length-keep-lt p a [] m h = absurd m
  length-keep-lt p a (x ∷ xs) (inl e) h = ground (arith, length-keep-le p xs, ap p e)
  length-keep-lt p a (x ∷ xs) (inr m) h = ground (arith, length-keep-lt p a xs m h)

  In-keep_hit :
      (p : A → Bool) (a x : A) (xs : List A)
      → p x ≡ true
      → In a (x ∷ keep p xs)
      → (In a (keep p xs) → In a xs × (p a ≡ true))
      → In a (x ∷ xs) × (p a ≡ true)
  In-keep_hit p a x xs h (inl e) ih = (inl e, subst (λ y. p y ≡ true) e h)
  In-keep_hit p a x xs h (inr m) ih = (inr (ih m).0, (ih m).1)

  -- A filter keeps no element that was not there, and none that fails the test.
  pub In-keep : (p : A → Bool) (a : A) (xs : List A) → In a (keep p xs) → In a xs × (p a ≡ true)
  unfolding keep
  In-keep p a [] m = absurd m
  In-keep p a (x ∷ xs) m = elim (Bool-cases (p x)) [
    | inl yes_p ↦ In-keep_hit p a x xs yes_p (rw yes_p at m) (In-keep p a xs)
    | inr no_p ↦ let (i, h) = In-keep p a xs (rw no_p at m) in (inr i, h)
  ]

  pub Some-append_left : (P : A → Type 0) (xs ys : List A) → Some P xs → Some P (xs ++ ys)
  Some-append_left P [] ys s = absurd s
  Some-append_left P (x ∷ xs) ys (inl p) = inl p
  Some-append_left P (x ∷ xs) ys (inr s) = inr (Some-append_left P xs ys s)

  pub Some-append_right : (P : A → Type 0) (xs ys : List A) → Some P ys → Some P (xs ++ ys)
  Some-append_right P [] ys s = s
  Some-append_right P (x ∷ xs) ys s = inr (Some-append_right P xs ys s)

  pub All-append {κ} : (P : A → Type κ) (xs ys : List A) → All P xs → All P ys → All P (xs ++ ys)
  All-append P [] ys a b = b
  All-append P (x ∷ xs) ys a b = (a.0, All-append P xs ys a.1 b)

  -- An element that passes the test of a filter stays.
  pub In-keep_of_In : (p : A → Bool) (a : A) (xs : List A) → In a xs → p a ≡ true → In a (keep p xs)
  unfolding keep
  In-keep_of_In p a [] m h = absurd m
  In-keep_of_In p a (x ∷ xs) (inl e) h = rw (ap p e ∙ h) (inl e)
  In-keep_of_In p a (x ∷ xs) (inr m) h = elim (Bool-cases (p x)) [
    | inl yes_p ↦ rw yes_p (inr (In-keep_of_In p a xs m h))
    | inr no_p ↦ rw no_p (In-keep_of_In p a xs m h)
  ]

  pub All-keep {κ} :
      (P : A → Type κ) (p : A → Bool) (xs : List A)
      → ((x : A) → p x ≡ true → P x)
      → All P (keep p xs)
  unfolding keep
  All-keep P p [] h = tt
  All-keep P p (x ∷ xs) h = elim (Bool-cases (p x)) [
    | inl yes_p ↦ rw yes_p (h x yes_p, All-keep P p xs h)
    | inr no_p ↦ rw no_p (All-keep P p xs h)
  ]
