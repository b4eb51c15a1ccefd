-- ===== src/Prelude/Sorting.antt =====
-- Go's `sort.Slice`, as a sort by insertion. `sort.Slice` promises a permutation in which no element
-- is less than one before it; that is what is proved here of the sort and used elsewhere.
use mathlib.Core.List.{List, [], ◌∷◌, Perm}
use mathlib.Core.List.Perm
use mathlib.Core.Path.{◌≡◌}
use mathlib.Core.Logic.{inl, inr}
use mathlib.Core.Bool.{Bool, true, false}
use local_router.Prelude.Tests.{if◌then◌else◌, Bool-cases}
use local_router.Prelude.Lists.{All, Some}

-- `less` orders: nothing is below what it is above, and "not less" is transitive.
pub record IsOrder {ℓ} {A : Type ℓ} (less : A → A → Bool) : Type ℓ where
  pub asym : (a b : A) → less a b ≡ true → less b a ≡ false
  pub le_trans : (a b c : A) → less b a ≡ false → less c b ≡ false → less c a ≡ false

module _ {A : Type 0} (less : A → A → Bool) where
  unfoldable pub insert : A → List A → List A
  insert x [] = x ∷ []
  insert x (y ∷ ys) = let rest = insert x ys in if less y x then y ∷ rest else x ∷ y ∷ ys

  unfoldable pub sort : List A → List A
  sort [] = []
  sort (x ∷ xs) = insert x (sort xs)

  abbrev pub IsSorted : List A → Type 0
  IsSorted [] = Unit {0}
  IsSorted (x ∷ xs) = All (λ y. less y x ≡ false) xs × IsSorted xs

  insert-perm : (x : A) (ys : List A) → Perm (insert x ys) (x ∷ ys)
  unfolding insert
  insert-perm x [] = Perm.refl (x ∷ [])
  insert-perm x (y ∷ ys) = elim (Bool-cases (less y x)) [
    | inr stop ↦ rw stop (Perm.refl (x ∷ y ∷ ys))
    | inl on ↦ rw on (Perm.trans (Perm.cons y (insert-perm x ys)) (Perm.swap x y ys))
  ]

  pub sort-perm : (xs : List A) → Perm (sort xs) xs
  unfolding sort
  sort-perm [] = Perm.refl []
  sort-perm (x ∷ xs) = Perm.trans (insert-perm x (sort xs)) (Perm.cons x (sort-perm xs))

  pub All-insert {κ} : (P : A → Type κ) (x : A) (ys : List A) → P x → All P ys → All P (insert x ys)
  unfolding insert
  All-insert P x [] p a = (p, tt)
  All-insert P x (y ∷ ys) p a = elim (Bool-cases (less y x)) [
    | inr stop ↦ rw stop (p, a)
    | inl on ↦ rw on (a.0, All-insert P x ys p a.1)
  ]

  -- What holds of all elements holds of all after sorting.
  pub All-sort {κ} : (P : A → Type κ) (xs : List A) → All P xs → All P (sort xs)
  unfolding sort
  All-sort P [] a = tt
  All-sort P (x ∷ xs) a = All-insert P x (sort xs) a.0 (All-sort P xs a.1)

  All-below :
      (o : IsOrder less) (x y : A) (ys : List A)
      → less y x ≡ false
      → All (λ z. less z y ≡ false) ys
      → All (λ z. less z x ≡ false) ys
  All-below o x y [] h a = tt
  All-below o x y (z ∷ ys) h a = (o.le_trans x y z h a.0, All-below o x y ys h a.1)

  insert-IsSorted : (o : IsOrder less) (x : A) (ys : List A) → IsSorted ys → IsSorted (insert x ys)
  unfolding insert
  insert-IsSorted o x [] s = (tt, tt)
  insert-IsSorted o x (y ∷ ys) s = elim (Bool-cases (less y x)) [
    | inr stop ↦ rw stop ((stop, All-below o x y ys stop s.0), s)
    | inl on ↦
        rw on
          (All-insert (λ z. less z y ≡ false) x ys (o.asym y x on) s.0, insert-IsSorted o x ys s.1)
  ]

  pub sort-IsSorted : (o : IsOrder less) (xs : List A) → IsSorted (sort xs)
  unfolding sort
  sort-IsSorted o [] = tt
  sort-IsSorted o (x ∷ xs) = insert-IsSorted o x (sort xs) (sort-IsSorted o xs)

  -- Sorting loses nothing: some element with `P` is still there.
  Some-insert_self : (P : A → Type 0) (x : A) (ys : List A) → P x → Some P (insert x ys)
  unfolding insert
  Some-insert_self P x [] p = inl p
  Some-insert_self P x (y ∷ ys) p = elim (Bool-cases (less y x)) [
    | inr stop ↦ rw stop (inl p)
    | inl on ↦ rw on (inr (Some-insert_self P x ys p))
  ]

  Some-insert : (P : A → Type 0) (x : A) (ys : List A) → Some P ys → Some P (insert x ys)
  unfolding insert
  Some-insert P x [] s = absurd s
  Some-insert P x (y ∷ ys) (inl p) = elim (Bool-cases (less y x)) [
    | inr stop ↦ rw stop (inr (inl p))
    | inl on ↦ rw on (inl p)
  ]
  Some-insert P x (y ∷ ys) (inr s) = elim (Bool-cases (less y x)) [
    | inr stop ↦ rw stop (inr (inr s))
    | inl on ↦ rw on (inr (Some-insert P x ys s))
  ]

  pub Some-sort : (P : A → Type 0) (xs : List A) → Some P xs → Some P (sort xs)
  unfolding sort
  Some-sort P [] s = absurd s
  Some-sort P (x ∷ xs) (inl p) = Some-insert_self P x (sort xs) p
  Some-sort P (x ∷ xs) (inr s) = Some-insert P x (sort xs) (Some-sort P xs s)
