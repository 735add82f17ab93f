-- ===== src/Base/Strings.antt =====
-- Bytes and texts as lists of numbers, and the literals that the sources write.
use mathlib.Core.Path.{◌≡◌, refl}
use native.Mathlib.Omega.{arith}
use Prim.Native.Nat.{ℕ, ◌-◌}
use Prim.Native.Char.{code}
use Prim.Native.String.{String}
use mathlib.Core.Bool.{Bool, true, false, ◌&&◌}
use mathlib.Core.List.{List, [], ◌∷◌}
use django_fast_multipart.Base.Lists.{length, drop}
use django_fast_multipart.Base.Tests.{◌==◌, leb}

-- A byte string.
abbrev pub Bytes : Type 0
Bytes = List ℕ

-- A text, by its code points.
abbrev pub Text : Type 0
Text = List ℕ

-- The code points of a literal: its bytes, where it is ASCII.
abbrev pub codes : String → List ℕ
codes String.[] = []
codes (String.◌∷◌ c s) = code c ∷ codes s

-- Equality of bytes and of texts.
unfoldable pub equal : List ℕ → List ℕ → Bool
equal [] [] = true
equal (x ∷ xs) (y ∷ ys) = x == y && equal xs ys
equal _ _ = false

-- `xs` begins with `needle`.
unfoldable pub starts_with : List ℕ → List ℕ → Bool
starts_with xs [] = true
starts_with [] (y ∷ ys) = false
starts_with (x ∷ xs) (y ∷ ys) = x == y && starts_with xs ys

-- `xs` ends with `needle`.
unfoldable pub ends_with : List ℕ → List ℕ → Bool
unfolding starts_with
ends_with xs needle =
    leb (length needle) (length xs) && starts_with (drop (length xs - length needle) xs) needle

pub equal_sound : (xs ys : List ℕ) → equal xs ys ≡ true → xs ≡ ys
unfolding equal
equal_sound [] [] e = refl
equal_sound (x ∷ xs) (y ∷ ys) e = ground (arith, equal_sound xs ys)
equal_sound [] (y ∷ ys) e = cc
equal_sound (x ∷ xs) [] e = cc

pub equal_refl : (xs : List ℕ) → equal xs xs ≡ true
unfolding equal
equal_refl [] = refl
equal_refl (x ∷ xs) = ground (arith, equal_refl xs)
