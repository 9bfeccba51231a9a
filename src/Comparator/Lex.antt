-- ===== src/Comparator/Lex.antt =====
-- Slice::compare is the lexicographic order of the bytes, and that is a total order.
use Prim.Native.Nat.{compare, Ordering}
use e_lsm_p.Base.{ℕ, suc, ◌≡◌, refl, List, [], ◌∷◌, length, ltb, if◌then◌else◌, arith}
use e_lsm_p.Comparator.{slice_compare, swapped}

-- The order by its definition.
unfoldable pub lex : List ℕ → List ℕ → Ordering
lex [] [] = Ordering.eq
lex [] (y ∷ b) = Ordering.lt
lex (x ∷ a) [] = Ordering.gt
lex (x ∷ a) (y ∷ b) =
    let rest = lex a b in
    elim (compare x y) [
      | Ordering.lt ↦ Ordering.lt
      | Ordering.eq ↦ rest
      | Ordering.gt ↦ Ordering.gt
    ]

pub slice_compare-lex : (a b : List ℕ) → slice_compare a b ≡ lex a b
unfolding slice_compare lex
slice_compare-lex [] [] = refl
slice_compare-lex [] (y ∷ b) = ground arith
slice_compare-lex (x ∷ a) [] = ground arith
slice_compare-lex (x ∷ a) (y ∷ b) =
    let shorter = if ltb (length a) (length b) then length a else length b in
    let start : (if ltb (suc (length a)) (suc (length b)) then suc (length a) else suc (length b))
        ≡ suc shorter =
      ground arith in
    rw start (ground (arith, slice_compare-lex a b))

pub lex_refl : (a : List ℕ) → lex a a ≡ Ordering.eq
unfolding lex
lex_refl [] = refl
lex_refl (x ∷ a) = ground (arith, lex_refl a)

pub lex_swap : (a b : List ℕ) → lex b a ≡ swapped (lex a b)
unfolding lex
lex_swap [] [] = refl
lex_swap [] (y ∷ b) = refl
lex_swap (x ∷ a) [] = refl
lex_swap (x ∷ a) (y ∷ b) = ground (arith, lex_swap a b)

pub lex_eq : (a b : List ℕ) → lex a b ≡ Ordering.eq → a ≡ b
unfolding lex
lex_eq [] [] h = refl
lex_eq [] (y ∷ b) h = cc
lex_eq (x ∷ a) [] h = cc
lex_eq (x ∷ a) (y ∷ b) h = ground (arith, lex_eq a b)

pub lex_trans :
    (a b c : List ℕ) → lex a b ≡ Ordering.lt → lex b c ≡ Ordering.lt → lex a c ≡ Ordering.lt
unfolding lex
lex_trans [] [] c h k = cc
lex_trans [] (y ∷ b) [] h k = cc
lex_trans [] (y ∷ b) (z ∷ c) h k = refl
lex_trans (x ∷ a) [] c h k = cc
lex_trans (x ∷ a) (y ∷ b) [] h k = cc
lex_trans (x ∷ a) (y ∷ b) (z ∷ c) h k = ground (arith, lex_trans a b c)
