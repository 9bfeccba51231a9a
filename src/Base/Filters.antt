-- ===== src/Base/Filters.antt =====
-- The elements of a list that pass a test, and how many they are.
use Prim.Native.Nat.{ℕ, suc, ◌≤◌, ◌<◌}
use mathlib.Core.Path.{◌≡◌, refl}
use mathlib.Core.Logic.{inl, inr}
use mathlib.Core.Bool.{Bool, true, false}
use mathlib.Core.List.{List, [], ◌∷◌, ◌++◌}
use native.Mathlib.Omega.{arith}
use e_lsm_p.Base.Lists.{length}
use e_lsm_p.Base.Tests.{if◌then◌else◌, Bool-cases}

module _ {ℓ} {A : Type ℓ} (p : A → Bool) where
  -- The elements that pass a test, in their order.
  abbrev pub filter : List A → List A
  filter [] = []
  filter (x ∷ xs) = if p x then x ∷ filter xs else filter xs

  abbrev pub count : List A → ℕ
  count [] = 0
  count (x ∷ xs) = if p x then suc (count xs) else count xs

  pub filter-append : (xs ys : List A) → filter (xs ++ ys) ≡ filter xs ++ filter ys
  filter-append [] ys = refl
  filter-append (x ∷ xs) ys = elim (Bool-cases (p x)) [
    | inl holds ↦ rw (holds, filter-append xs ys) refl
    | inr fails ↦ rw (fails, filter-append xs ys) refl
  ]

  pub count_bound : (xs : List A) → count xs ≤ length xs
  count_bound [] = omega arith
  count_bound (x ∷ xs) = let rest = count_bound xs in ground (arith, rest)

module _ {ℓ} {A : Type ℓ} (p q : A → Bool) (fewer : (x : A) → p x ≡ true → q x ≡ true) where
  count_mono : (xs : List A) → count p xs ≤ count q xs
  count_mono [] = omega arith
  count_mono (x ∷ xs) = let rest = count_mono xs in let here = fewer x in ground (arith, rest, here)

  pub count_less :
      (xs : List A) (x : A) (ys : List A)
      → p x ≡ false
      → q x ≡ true
      → count p (xs ++ (x ∷ ys)) < count q (xs ++ (x ∷ ys))
  count_less [] x ys fails holds = let rest = count_mono ys in ground (arith, rest, fails, holds)
  count_less (z ∷ zs) x ys fails holds =
      let rest = count_less zs x ys fails holds in let here = fewer z in ground (arith, rest, here)
