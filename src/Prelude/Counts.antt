-- ===== src/Prelude/Counts.antt =====
-- How often a number stands in a list.
use fakuicode.Prelude.Tests.{◌==◌, if◌then◌else◌}
use Prim.Native.Nat.{ℕ, suc, ◌+◌}
use mathlib.Core.Path.{◌≡◌, refl}
use mathlib.Core.Logic.{◌≢◌}
use mathlib.Core.List.{List, [], ◌∷◌, ◌++◌}
use native.Mathlib.Omega.{arith}

unfoldable pub count : ℕ → List ℕ → ℕ
count a [] = 0
count a (x ∷ xs) = let rest = count a xs in if x == a then suc rest else rest

pub count-append : (a : ℕ) (xs ys : List ℕ) → count a (xs ++ ys) ≡ count a xs + count a ys
unfolding count
count-append a [] ys = omega arith
count-append a (x ∷ xs) ys = ground (arith, count-append a xs ys)

pub count-nil : (a : ℕ) → count a [] ≡ 0
unfolding count
count-nil a = refl

pub count_self : (a : ℕ) (xs : List ℕ) → count a (a ∷ xs) ≡ suc (count a xs)
unfolding count
count_self a xs = ground arith

pub count-other : (a x : ℕ) (xs : List ℕ) → a ≢ x → count a (x ∷ xs) ≡ count a xs
unfolding count
count-other a x xs h = ground arith
