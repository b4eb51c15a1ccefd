-- ===== src/Prelude/Text.antt =====
-- Go's order and equality on strings. `<` on strings compares bytes, which for UTF-8 is the order
-- of the code points.
use Prim.Native.Nat.{ℕ}
use Prim.Native.Char.{code}
use Prim.Native.String.{String, ◌++◌ as str_append}
use Prim.Native.String.append
use mathlib.Core.Option.{Option, none, some}
use mathlib.Core.Path.{◌≡◌, refl, ap, ap₂, sym, ◌∙◌, subst}
use mathlib.Core.Logic.{inl, inr}
use mathlib.Core.Bool.{Bool, true, false, false≢true}
use mathlib.Core.List.{List, [], ◌∷◌}
use native.Mathlib.Omega.{arith}
use local_router.Prelude.Tests.{ltb, ◌==◌, if◌then◌else◌, Bool-cases}
pub use text.Mathlib.Text.{◌==◌ as str_eq}
use text.Mathlib.TextEquality.{Char-path}

abbrev pub codes : String → List ℕ
codes String.[] = []
codes (String.◌∷◌ c s) = code c ∷ codes s

-- What follows a prefix, or `none` where the text does not begin with it.
unfoldable pub after_prefix : String → String → Option String
after_prefix String.[] s = some s
after_prefix (String.◌∷◌ c p) String.[] = none
after_prefix (String.◌∷◌ c p) (String.◌∷◌ d s) =
    let rest = after_prefix p s in if code c == code d then rest else none

pub after_prefix-append : (p s : String) → after_prefix p (str_append p s) ≡ some s
unfolding after_prefix
after_prefix-append String.[] s = ap (after_prefix String.[]) (append.nil s)
after_prefix-append (String.◌∷◌ c p) s =
    ap (after_prefix (String.◌∷◌ c p)) (append.cons c p s) ∙ ground (arith, after_prefix-append p s)

unfoldable pub lex_lt : List ℕ → List ℕ → Bool
lex_lt [] [] = false
lex_lt [] (y ∷ ys) = true
lex_lt (x ∷ xs) [] = false
lex_lt (x ∷ xs) (y ∷ ys) = let rest = lex_lt xs ys in if x == y then rest else ltb x y

unfoldable pub str_lt : String → String → Bool
str_lt s t = lex_lt (codes s) (codes t)

lex_lt_irrefl : (xs : List ℕ) → lex_lt xs xs ≡ false
unfolding lex_lt
lex_lt_irrefl [] = refl
lex_lt_irrefl (x ∷ xs) = ground (arith, lex_lt_irrefl xs)

lex_lt_trans : (xs ys zs : List ℕ) → lex_lt xs ys ≡ true → lex_lt ys zs ≡ true → lex_lt xs zs ≡ true
unfolding lex_lt
lex_lt_trans [] [] zs p q = ground arith
lex_lt_trans [] (y ∷ ys) [] p q = ground arith
lex_lt_trans [] (y ∷ ys) (z ∷ zs) p q = refl
lex_lt_trans (x ∷ xs) [] zs p q = ground arith
lex_lt_trans (x ∷ xs) (y ∷ ys) [] p q = ground arith
lex_lt_trans (x ∷ xs) (y ∷ ys) (z ∷ zs) p q = ground (arith, lex_lt_trans xs ys zs)

lex_lt_total : (xs ys : List ℕ) → lex_lt xs ys ≡ false → lex_lt ys xs ≡ false → xs ≡ ys
unfolding lex_lt
lex_lt_total [] [] p q = refl
lex_lt_total [] (y ∷ ys) p q = ground arith
lex_lt_total (x ∷ xs) [] p q = ground arith
lex_lt_total (x ∷ xs) (y ∷ ys) p q = ground (arith, lex_lt_total xs ys)

codes_injective : (s t : String) → codes s ≡ codes t → s ≡ t
codes_injective String.[] String.[] h = refl
codes_injective String.[] (String.◌∷◌ d t) h = cc
codes_injective (String.◌∷◌ c s) String.[] h = cc
codes_injective (String.◌∷◌ c s) (String.◌∷◌ d t) h =
    ap₂ String.◌∷◌ (Char-path c d (cc)) (codes_injective s t (cc))

pub str_lt_irrefl : (s : String) → str_lt s s ≡ false
unfolding str_lt
str_lt_irrefl s = lex_lt_irrefl (codes s)

pub str_lt_trans : (s t u : String) → str_lt s t ≡ true → str_lt t u ≡ true → str_lt s u ≡ true
unfolding str_lt
str_lt_trans s t u = lex_lt_trans (codes s) (codes t) (codes u)

pub str_lt_total : (s t : String) → str_lt s t ≡ false → str_lt t s ≡ false → s ≡ t
unfolding str_lt
str_lt_total s t p q = codes_injective s t (lex_lt_total (codes s) (codes t) p q)

pub str_lt_asym : (s t : String) → str_lt s t ≡ true → str_lt t s ≡ false
str_lt_asym s t p = ground (arith, str_lt_trans s t s p, str_lt_irrefl s)

-- `not (t < s)` is transitive.
pub str_le_trans : (s t u : String) → str_lt t s ≡ false → str_lt u t ≡ false → str_lt u s ≡ false
str_le_trans s t u p q = elim (Bool-cases (str_lt u s)) [
  | inr fine ↦ fine
  | inl below ↦ elim (Bool-cases (str_lt s t)) [
    | inl above ↦ absurd (false≢true (sym q ∙ str_lt_trans u s t below above))
    | inr same ↦
        absurd (false≢true (sym q ∙ subst (λ v. str_lt u v ≡ true) (str_lt_total s t same p) below))
  ]
]
