-- ===== src/Prelude/Strings.antt =====
-- C strings: the bytes before the terminating NUL. Text literals are read as their code points,
-- which are their bytes where the text is ASCII.
use Prim.Native.Nat.{ℕ}
use Prim.Native.Char.{code}
use Prim.Native.String.{String}
use mathlib.Core.Path.{◌≡◌, refl}
use mathlib.Core.Logic.{◌↔◌}
use mathlib.Core.Bool.{Bool, true, false, ◌&&◌}
use mathlib.Core.List.{List, [], ◌∷◌}
use native.Mathlib.Omega.{arith}
use kvstore_epoll.Prelude.Tests.{◌==◌}

abbrev pub Bytes : Type 0
Bytes = List ℕ

abbrev pub codes : String → Bytes
codes String.[] = []
codes (String.◌∷◌ c s) = code c ∷ codes s

-- `strcmp(a, b) == 0`
unfoldable pub strcmp_eq : Bytes → Bytes → Bool
strcmp_eq [] [] = true
strcmp_eq [] (y ∷ ys) = false
strcmp_eq (x ∷ xs) [] = false
strcmp_eq (x ∷ xs) (y ∷ ys) = (x == y) && strcmp_eq xs ys

pub strcmp_eq_refl : (a : Bytes) → strcmp_eq a a ≡ true
unfolding strcmp_eq
strcmp_eq_refl [] = refl
strcmp_eq_refl (x ∷ xs) = ground (arith, strcmp_eq_refl xs)

eq_of_strcmp_eq : (a b : Bytes) → strcmp_eq a b ≡ true → a ≡ b
unfolding strcmp_eq
eq_of_strcmp_eq [] [] h = refl
eq_of_strcmp_eq [] (y ∷ ys) h = cc
eq_of_strcmp_eq (x ∷ xs) [] h = cc
eq_of_strcmp_eq (x ∷ xs) (y ∷ ys) h = ground (arith, eq_of_strcmp_eq xs ys)

strcmp_eq_of_eq : (a b : Bytes) → a ≡ b → strcmp_eq a b ≡ true
strcmp_eq_of_eq a b h = rw h (strcmp_eq_refl b)

pub strcmp_eq_iff : (a b : Bytes) → (strcmp_eq a b ≡ true) ↔ (a ≡ b)
strcmp_eq_iff a b = (eq_of_strcmp_eq a b, strcmp_eq_of_eq a b)
