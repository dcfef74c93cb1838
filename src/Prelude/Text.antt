-- ===== src/Prelude/Text.antt =====
-- The order of Rust's `str`: bytewise, which for UTF-8 is the order of the code points.
use Prim.Native.Nat.{ℕ}
use Prim.Native.Char.{code}
use Prim.Native.String.{String}
use mathlib.Core.Path.{◌≡◌, refl}
use mathlib.Core.Bool.{Bool, true, false}
use mathlib.Core.List.{List, [], ◌∷◌}
use native.Mathlib.Omega.{arith}
use trainsplorer.Prelude.Tests.{ltb, if◌then◌else◌}

abbrev pub codes : String → List ℕ
codes String.[] = []
codes (String.◌∷◌ c s) = code c ∷ codes s

-- Lexicographic "before".
pub codes_lt : List ℕ → List ℕ → Bool
codes_lt xs [] = false
codes_lt [] (y ∷ ys) = true
codes_lt (x ∷ xs) (y ∷ ys) =
    let rest = codes_lt xs ys in if ltb x y then true else if ltb y x then false else rest

codes_lt_irrefl : (xs : List ℕ) → codes_lt xs xs ≡ false
unfolding codes_lt
codes_lt_irrefl [] = refl
codes_lt_irrefl (x ∷ xs) = ground (arith, codes_lt_irrefl xs)

codes_lt_trans :
    (xs ys zs : List ℕ) → codes_lt xs ys ≡ true → codes_lt ys zs ≡ true → codes_lt xs zs ≡ true
unfolding codes_lt
codes_lt_trans xs ys [] h k = ground arith
codes_lt_trans [] ys (z ∷ zs) h k = refl
codes_lt_trans (x ∷ xs) [] (z ∷ zs) h k = ground arith
codes_lt_trans (x ∷ xs) (y ∷ ys) (z ∷ zs) h k = ground (arith, codes_lt_trans xs ys zs)

-- What is before `zs` stands before any `ys` that is not.
codes_lt_weak :
    (xs ys zs : List ℕ) → codes_lt xs ys ≡ false → codes_lt ys zs ≡ false → codes_lt xs zs ≡ false
unfolding codes_lt
codes_lt_weak xs ys [] h k = refl
codes_lt_weak xs [] (z ∷ zs) h k = cc
codes_lt_weak [] (y ∷ ys) (z ∷ zs) h k = cc
codes_lt_weak (x ∷ xs) (y ∷ ys) (z ∷ zs) h k = ground (arith, codes_lt_weak xs ys zs)

unfoldable pub str_lt : String → String → Bool
unfolding codes_lt
str_lt s t = codes_lt (codes s) (codes t)

pub str_lt_irrefl : (s : String) → str_lt s s ≡ false
unfolding str_lt
str_lt_irrefl s = codes_lt_irrefl (codes s)

pub str_lt_trans : (s t u : String) → str_lt s t ≡ true → str_lt t u ≡ true → str_lt s u ≡ true
unfolding str_lt
str_lt_trans s t u = codes_lt_trans (codes s) (codes t) (codes u)

pub str_lt_weak : (s t u : String) → str_lt s t ≡ false → str_lt t u ≡ false → str_lt s u ≡ false
unfolding str_lt
str_lt_weak s t u = codes_lt_weak (codes s) (codes t) (codes u)
