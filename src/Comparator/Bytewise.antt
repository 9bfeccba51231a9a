-- ===== src/Comparator/Bytewise.antt =====
-- BytewiseComparatorImpl keeps what Comparator promises.
use Prim.Native.Nat.{Ordering, min}
use e_lsm_p.Base.{
  ℕ, suc, ◌+◌, ◌≡◌, ◌≢◌, refl, sym, ap, ◌∙◌, List, [], ◌∷◌, length, ltb, leb, ◌==◌, ◌&&◌,
  if◌then◌else◌, arith, Bool-cases, inl, inr, true, false, ◌⊎◌, ◌%◌, All,
}
use e_lsm_p.Comparator.{
  IsOrder, IsComparator, bytewise, slice_compare, swapped, diff_index, find_shortest_separator,
  find_short_successor,
}
use e_lsm_p.Coding.Fixed.{IsByte}
use e_lsm_p.Comparator.Lex.{lex, slice_compare-lex, lex_refl, lex_swap, lex_eq, lex_trans}

min-suc : (m n : ℕ) → min (suc m) (suc n) ≡ suc (min m n)
min-suc m n = omega arith

leb-suc : (m n : ℕ) → leb (suc m) (suc n) ≡ leb m n
leb-suc m n = ground arith

-- A shared first byte stays.
separator_shared :
    (x y : ℕ) (start limit : List ℕ)
    → (x == y) ≡ true
    → find_shortest_separator (x ∷ start) (y ∷ limit) ≡ x ∷ find_shortest_separator start limit
unfolding find_shortest_separator
separator_shared x y start limit e =
    rw
      (
        e,
        min-suc (length start) (length limit),
        leb-suc (min (length start) (length limit)) (diff_index start limit),
      )
      (ground arith)

separator_differ :
    (x y : ℕ) (start limit : List ℕ)
    → (x == y) ≡ false
    → find_shortest_separator (x ∷ start) (y ∷ limit)
      ≡ (if ltb x 255 && ltb (x + 1) y then ((x + 1) % 256) ∷ [] else x ∷ start)
unfolding find_shortest_separator
separator_differ x y start limit e = rw (e, min-suc (length start) (length limit)) (ground arith)

-- The separator is its start, or it lies strictly between the start and the limit.
separator_lex :
    (start limit : List ℕ)
    → (find_shortest_separator start limit ≡ start)
      ⊎ ((lex start (find_shortest_separator start limit) ≡ Ordering.lt)
          × (lex (find_shortest_separator start limit) limit ≡ Ordering.lt))
separator_lex [] [] = inl (unfold find_shortest_separator in ground arith)
separator_lex [] (y ∷ limit) = inl (unfold find_shortest_separator in ground arith)
separator_lex (x ∷ start) [] = inl (unfold find_shortest_separator in ground arith)
separator_lex (x ∷ start) (y ∷ limit) = elim (Bool-cases (x == y)) [
  | inl e ↦ rw (separator_shared x y start limit e) (elim (separator_lex start limit) [
    | inl same ↦ inl (ap (λ (t : List ℕ). x ∷ t) same)
    | inr (low, high) ↦
        inr ((unfold lex in ground (arith, low)), (unfold lex in ground (arith, high)))
  ])
  | inr ne ↦
      rw (separator_differ x y start limit ne) (elim (Bool-cases (ltb x 255 && ltb (x + 1) y)) [
        | inl fits ↦ rw fits (inr ((unfold lex in ground arith), (unfold lex in ground arith)))
        | inr stays ↦ rw stays (inl refl)
      ])
]

successor_lex : (key : List ℕ) → All IsByte key → lex key (find_short_successor key) ≢ Ordering.gt
unfolding lex find_short_successor
successor_lex [] bytes h = cc
successor_lex (b ∷ key) (hb, hk) h = ground (arith, successor_lex key hk)

-- Where the start is not below the limit the separator leaves it alone.
pub separator_lower_lex :
    (start limit : List ℕ) → lex start (find_shortest_separator start limit) ≢ Ordering.gt
separator_lower_lex start limit = elim (separator_lex start limit) [
  | inl same ↦ rw same (λ h. cc (lex_refl start, h))
  | inr (low, high) ↦ λ h. cc (low, h)
]

separator_upper_lex :
    (start limit : List ℕ)
    → lex start limit ≡ Ordering.lt
    → lex (find_shortest_separator start limit) limit ≡ Ordering.lt
separator_upper_lex start limit h = elim (separator_lex start limit) [
  | inl same ↦ rw same h
  | inr (low, high) ↦ high
]

separator_self : (key : List ℕ) → find_shortest_separator key key ≡ key
separator_self [] = unfold find_shortest_separator in ground arith
separator_self (x ∷ key) =
    separator_shared x x key key (ground arith) ∙ ap (λ (t : List ℕ). x ∷ t) (separator_self key)

-- Between a key and itself the separator is that key.
pub separator_same :
    (start limit : List ℕ)
    → slice_compare start limit ≡ Ordering.eq
    → find_shortest_separator start limit ≡ start
separator_same start limit h =
    ap (λ (t : List ℕ). find_shortest_separator start t)
      (sym (lex_eq start limit (sym (slice_compare-lex start limit) ∙ h)))
    ∙ separator_self start

bytewise-IsOrder : IsOrder bytewise
bytewise-IsOrder = record {
  compare_refl = λ a. rw slice_compare-lex (lex_refl a);
  compare_swap =
      λ a b. slice_compare-lex b a ∙ lex_swap a b ∙ ap swapped (sym (slice_compare-lex a b));
  compare_eq = λ a b d h.
      ap (λ (t : List ℕ). slice_compare t d) (lex_eq a b (sym (slice_compare-lex a b) ∙ h));
  compare_trans = λ a b d h k.
      slice_compare-lex a d
      ∙ lex_trans a b d (sym (slice_compare-lex a b) ∙ h) (sym (slice_compare-lex b d) ∙ k);
}

pub bytewise-IsComparator : IsComparator bytewise
bytewise-IsComparator = record {
  order = bytewise-IsOrder;
  separator_lower = λ start limit h k.
      separator_lower_lex start limit
        (sym (slice_compare-lex start (find_shortest_separator start limit)) ∙ k);
  separator_upper = λ start limit h.
      slice_compare-lex (find_shortest_separator start limit) limit
      ∙ separator_upper_lex start limit (sym (slice_compare-lex start limit) ∙ h);
  successor_lower = λ key bytes h.
      successor_lex key bytes (sym (slice_compare-lex key (find_short_successor key)) ∙ h);
}
