-- ===== src/Comparator/Order.antt =====
-- What follows from the contract of a comparator (Enclave/leveldb/include/leveldb/comparator.h).
use Prim.Native.Nat.{Ordering}
use e_lsm_p.Base.{◌≡◌, ◌≢◌, ◌⊎◌, inl, inr, refl, sym, ap, ◌∙◌, List, ℕ}
use e_lsm_p.Comparator.{Comparator, IsOrder, swapped}

pub Ordering-cases : (o : Ordering) → (o ≡ Ordering.lt) ⊎ (o ≡ Ordering.eq) ⊎ (o ≡ Ordering.gt)
Ordering-cases Ordering.lt = inl refl
Ordering-cases Ordering.eq = inr (inl refl)
Ordering-cases Ordering.gt = inr (inr refl)

module _ (c : Comparator) (lawful : IsOrder c) where
  pub flip_lt : (a b : List ℕ) → c.compare a b ≡ Ordering.lt → c.compare b a ≡ Ordering.gt
  flip_lt a b h = lawful.compare_swap a b ∙ ap swapped h

  pub flip_eq : (a b : List ℕ) → c.compare a b ≡ Ordering.eq → c.compare b a ≡ Ordering.eq
  flip_eq a b h = lawful.compare_swap a b ∙ ap swapped h

  pub flip_gt : (a b : List ℕ) → c.compare a b ≡ Ordering.gt → c.compare b a ≡ Ordering.lt
  flip_gt a b h = lawful.compare_swap a b ∙ ap swapped h

  pub le_refl : (a : List ℕ) → c.compare a a ≢ Ordering.gt
  le_refl a h = let same = lawful.compare_refl a in cc

  pub compare_eq_right :
      (a b d : List ℕ) → c.compare b d ≡ Ordering.eq → c.compare a b ≡ c.compare a d
  compare_eq_right a b d h =
      lawful.compare_swap b a
      ∙ ap swapped (lawful.compare_eq b d a h)
      ∙ sym (lawful.compare_swap d a)

  pub lt_of-le-lt :
      (a b d : List ℕ)
      → c.compare a b ≢ Ordering.gt
      → c.compare b d ≡ Ordering.lt
      → c.compare a d ≡ Ordering.lt
  lt_of-le-lt a b d h k = elim (Ordering-cases (c.compare a b)) [
    | inl less ↦ lawful.compare_trans a b d less k
    | inr (inl same) ↦ lawful.compare_eq a b d same ∙ k
    | inr (inr more) ↦ absurd (h more)
  ]

  pub lt_of-lt-le :
      (a b d : List ℕ)
      → c.compare a b ≡ Ordering.lt
      → c.compare b d ≢ Ordering.gt
      → c.compare a d ≡ Ordering.lt
  lt_of-lt-le a b d h k = elim (Ordering-cases (c.compare b d)) [
    | inl less ↦ lawful.compare_trans a b d h less
    | inr (inl same) ↦ sym (compare_eq_right a b d same) ∙ h
    | inr (inr more) ↦ absurd (k more)
  ]

  pub le_of-lt : (a b : List ℕ) → c.compare a b ≡ Ordering.lt → c.compare a b ≢ Ordering.gt
  le_of-lt a b h k = cc

  pub le_trans :
      (a b d : List ℕ)
      → c.compare a b ≢ Ordering.gt
      → c.compare b d ≢ Ordering.gt
      → c.compare a d ≢ Ordering.gt
  le_trans a b d h k = λ bad. h (flip_lt b a (lt_of-le-lt b d a k (flip_gt a d bad)))
