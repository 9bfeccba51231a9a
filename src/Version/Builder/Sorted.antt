-- ===== src/Version/Builder/Sorted.antt =====
-- SaveTo of Enclave/leveldb/db/version_set.cpp: the files of a level are again in the order of BySmallestKey, and they
-- are those of the base and the added ones, less the deleted.
use Prim.Native.Nat.{Ordering}
use e_lsm_p.Base.{
  ℕ, suc, ◌+◌, ◌≤◌, ◌≡◌, ◌⊎◌, inl, inr, refl, sym, ap, ◌∙◌, Bool, true, false, ◌&&◌, List, [], ◌∷◌,
  ◌++◌, ltb, count, All, All-append, arith, Bool-cases,
}
use e_lsm_p.Comparator.{Comparator, IsComparator, IsOrder}
use e_lsm_p.Comparator.Order.{Ordering-cases, flip_lt, flip_eq, flip_gt, compare_eq_right}
use e_lsm_p.DbFormat.{internal_compare, internal_key_comparator}
use e_lsm_p.DbFormat.Order.{internal_key_comparator-IsOrder}
use e_lsm_p.VersionEdit.{FileMetaData}
use e_lsm_p.Version.Builder.{Builder, by_smallest_key, contains, upper_bound, save_to}
use e_lsm_p.Version.Builder.Merge.{
  merge, IsBefore, IsSorted, kept, referred, saved_files, save_loop-merge,
}

module _ (user : Comparator) (lawful : IsComparator user) where
  abbrev order : List ℕ → List ℕ → Ordering
  order = internal_compare user

  internal_lawful : IsOrder (internal_key_comparator user)
  internal_lawful = internal_key_comparator-IsOrder user lawful.order

  -- What the order of two files says of their first keys and numbers.
  abbrev Precedes : FileMetaData → FileMetaData → Type 0
  Precedes f g =
      (order f.smallest g.smallest ≡ Ordering.lt)
      ⊎ ((order f.smallest g.smallest ≡ Ordering.eq) × (f.number ≤ g.number))

  Precedes-of-IsBefore : (f g : FileMetaData) → IsBefore user f g → Precedes f g
  unfolding by_smallest_key
  Precedes-of-IsBefore f g h = elim (Ordering-cases (order g.smallest f.smallest)) [
    | inl less ↦ absurd (let wrong : true ≡ false = rw less at h in let no_way : ⊥ = cc in no_way)
    | inr (inl same) ↦ inr (
      flip_eq (internal_key_comparator user) internal_lawful g.smallest f.smallest same,
      (let tie : ltb g.number f.number ≡ false = rw same at h in ground (arith, tie)),
    )
    | inr (inr more) ↦
        inl (flip_gt (internal_key_comparator user) internal_lawful g.smallest f.smallest more)
  ]

  IsBefore-of-Precedes : (f g : FileMetaData) → Precedes f g → IsBefore user f g
  unfolding by_smallest_key
  IsBefore-of-Precedes f g (inl less) =
      rw (flip_lt (internal_key_comparator user) internal_lawful f.smallest g.smallest less) refl
  IsBefore-of-Precedes f g (inr (same, small)) =
      rw (flip_eq (internal_key_comparator user) internal_lawful f.smallest g.smallest same)
        (ground (arith, small))

  Precedes-trans : (f g h : FileMetaData) → Precedes f g → Precedes g h → Precedes f h
  Precedes-trans f g h (inl a) (inl b) =
      inl (internal_lawful.compare_trans f.smallest g.smallest h.smallest a b)
  Precedes-trans f g h (inl a) (inr (b, n)) = inl (
      sym (
        compare_eq_right (internal_key_comparator user) internal_lawful f.smallest g.smallest
          h.smallest b)
      ∙ a)
  Precedes-trans f g h (inr (a, m)) (inl b) =
      inl (internal_lawful.compare_eq f.smallest g.smallest h.smallest a ∙ b)
  Precedes-trans f g h (inr (a, m)) (inr (b, n)) =
      inr (internal_lawful.compare_eq f.smallest g.smallest h.smallest a ∙ b, omega arith)

  IsBefore-trans :
      (f g h : FileMetaData) → IsBefore user f g → IsBefore user g h → IsBefore user f h
  IsBefore-trans f g h a b =
      IsBefore-of-Precedes f h
        (Precedes-trans f g h (Precedes-of-IsBefore f g a) (Precedes-of-IsBefore g h b))

  -- A file that comes before another does not come behind it.
  pub IsBefore-of-less : (f g : FileMetaData) → by_smallest_key user f g ≡ true → IsBefore user f g
  unfolding by_smallest_key
  IsBefore-of-less f g h = elim (Ordering-cases (order f.smallest g.smallest)) [
    | inl less ↦ IsBefore-of-Precedes f g (inl less)
    | inr (inl same) ↦
        IsBefore-of-Precedes f g
          (inr (same, let tie : ltb f.number g.number ≡ true = rw same at h in ground (arith, tie)))
    | inr (inr more) ↦
        absurd (let wrong : false ≡ true = rw more at h in let no_way : ⊥ = cc in no_way)
  ]

  pub all_IsBefore_trans :
      (f g : FileMetaData) (hs : List FileMetaData)
      → IsBefore user f g
      → All (IsBefore user g) hs
      → All (IsBefore user f) hs
  all_IsBefore_trans f g [] a b = tt
  all_IsBefore_trans f g (h ∷ hs) a b =
      (IsBefore-trans f g h a b.0, all_IsBefore_trans f g hs a b.1)

  module _ {κ} (P : FileMetaData → Type κ) (a : FileMetaData) where
    bound-All :
        (base : List FileMetaData)
        → All P base
        → All P (upper_bound user a base).0 × All P (upper_bound user a base).1
    bound-All [] h = (tt, tt)
    bound-All (f ∷ fs) h =
        let (before, rest) = bound-All fs h.1 in
        elim (Bool-cases (by_smallest_key user a f)) [
          | inl less ↦ rw less (tt, h)
          | inr not_less ↦ rw not_less ((h.0, before), rest)
        ]

  merge-All {κ} :
      (P : FileMetaData → Type κ) (added base : List FileMetaData)
      → All P added
      → All P base
      → All P (merge user added base)
  unfolding merge
  merge-All P [] base h k = k
  merge-All P (a ∷ added) base h k =
      let (before, rest) = bound-All P a base k in
      All-append P (upper_bound user a base).0 (a ∷ merge user added (upper_bound user a base).1)
        before (h.0, merge-All P added (upper_bound user a base).1 h.1 rest)

  append-IsSorted :
      (m : FileMetaData) (xs ys : List FileMetaData)
      → IsSorted user xs
      → All (λ x. IsBefore user x m) xs
      → All (IsBefore user m) ys
      → IsSorted user ys
      → IsSorted user (xs ++ ys)
  append-IsSorted m [] ys h k below sorted = sorted
  append-IsSorted m (x ∷ xs) ys h k below sorted = (
    All-append (IsBefore user x) xs ys h.0 (all_IsBefore_trans x m ys k.0 below),
    append-IsSorted m xs ys h.1 k.1 below sorted,
  )

  IsBefore-refl : (f : FileMetaData) → IsBefore user f f
  IsBefore-refl f =
      IsBefore-of-Precedes f f (inr (internal_lawful.compare_refl f.smallest, omega arith))

  -- Where the base files are cut: those before do not come behind the added file, the others do.
  bound-IsSorted :
      (a : FileMetaData) (base : List FileMetaData)
      → IsSorted user base
      → IsSorted user (upper_bound user a base).0
        × All (λ b. IsBefore user b a) (upper_bound user a base).0
        × IsSorted user (upper_bound user a base).1
        × All (IsBefore user a) (upper_bound user a base).1
  bound-IsSorted a [] h = (tt, tt, tt, tt)
  bound-IsSorted a (f ∷ fs) h =
      let (before, below, rest, above) = bound-IsSorted a fs h.1 in
      elim (Bool-cases (by_smallest_key user a f)) [
        | inl less ↦
            let first = IsBefore-of-less a f less in
            rw less (tt, tt, h, (first, all_IsBefore_trans a f fs first h.0))
        | inr not_less ↦
            rw not_less
              (((bound-All (IsBefore user f) a fs h.0).0, before), (not_less, below), rest, above)
      ]

  merge-IsSorted :
      (added base : List FileMetaData)
      → IsSorted user added
      → IsSorted user base
      → IsSorted user (merge user added base)
  unfolding merge
  merge-IsSorted [] base h k = k
  merge-IsSorted (a ∷ added) base h k =
      let (before, below, rest, above) = bound-IsSorted a base k in
      let tail = merge-All (IsBefore user a) added (upper_bound user a base).1 h.0 above in
      append-IsSorted a (upper_bound user a base).0
        (a ∷ merge user added (upper_bound user a base).1) before below (IsBefore-refl a, tail)
        (tail, merge-IsSorted added (upper_bound user a base).1 h.1 rest)

  referred-IsBefore :
      (f g : FileMetaData) → IsBefore user f g → IsBefore user (referred f) (referred g)
  unfolding by_smallest_key
  referred-IsBefore f g h = h

  saved-All :
      (deleted : List ℕ) (f : FileMetaData) (fs : List FileMetaData)
      → All (IsBefore user f) fs
      → All (IsBefore user (referred f)) (saved_files deleted fs)
  saved-All deleted f [] h = tt
  saved-All deleted f (g ∷ gs) h = elim (Bool-cases (contains g.number deleted)) [
    | inl gone ↦ rw gone (saved-All deleted f gs h.1)
    | inr here ↦ rw here (referred-IsBefore f g h.0, saved-All deleted f gs h.1)
  ]

  saved-IsSorted :
      (deleted : List ℕ) (fs : List FileMetaData)
      → IsSorted user fs
      → IsSorted user (saved_files deleted fs)
  saved-IsSorted deleted [] h = tt
  saved-IsSorted deleted (f ∷ fs) h = elim (Bool-cases (contains f.number deleted)) [
    | inl gone ↦ rw gone (saved-IsSorted deleted fs h.1)
    | inr here ↦ rw here (saved-All deleted f fs h.0, saved-IsSorted deleted fs h.1)
  ]

module _ (user : Comparator) (p : FileMetaData → Bool) where
  count-append : (xs ys : List FileMetaData) → count p (xs ++ ys) ≡ count p xs + count p ys
  count-append [] ys = omega arith
  count-append (x ∷ xs) ys = let rest = count-append xs ys in ground (arith, rest)

  count-upper_bound :
      (a : FileMetaData) (base : List FileMetaData)
      → count p base ≡ count p (upper_bound user a base).0 + count p (upper_bound user a base).1
  count-upper_bound a [] = omega arith
  count-upper_bound a (f ∷ fs) =
      let rest = count-upper_bound a fs in
      elim (Bool-cases (by_smallest_key user a f)) [
        | inl less ↦ rw less (omega arith)
        | inr not_less ↦ rw not_less (ground (arith, rest))
      ]

  count-merge :
      (added base : List FileMetaData)
      → count p (merge user added base) ≡ count p base + count p added
  unfolding merge
  count-merge [] base = omega arith
  count-merge (a ∷ added) base =
      let rest = count-merge added (upper_bound user a base).1 in
      let cut = count-upper_bound a base in
      let whole =
        count-append (upper_bound user a base).0
          (a ∷ merge user added (upper_bound user a base).1) in
      ground (arith, rest, cut, whole)

count-saved_files :
    (p : FileMetaData → Bool) (deleted : List ℕ) (fs : List FileMetaData)
    → count p (saved_files deleted fs) ≡ count (λ f. kept deleted f && p (referred f)) fs
count-saved_files p deleted [] = refl
count-saved_files p deleted (f ∷ fs) =
    let rest = count-saved_files p deleted fs in
    elim (Bool-cases (contains f.number deleted)) [
      | inl gone ↦ rw gone rest
      | inr here ↦ elim (Bool-cases (p (referred f))) [
        | inl counts ↦ rw (here, counts) (ap suc rest)
        | inr not_counted ↦ rw (here, not_counted) rest
      ]
    ]

-- SaveTo leaves a level in the order of BySmallestKey, and in it just the files of the base and the added ones
-- that are not deleted, as often as they are there, each with one more reference. The base level is in that
-- order, and so is the set of added files.
pub save_to-IsSorted :
    (user : Comparator) (b : Builder) (base : ℕ → List FileMetaData) (level : ℕ)
    → IsComparator user
    → IsSorted user (b.added_files level)
    → IsSorted user (base level)
    → IsSorted user (save_to user b base level)
      × ((p : FileMetaData → Bool)
          → let q = λ (f : FileMetaData). kept (b.deleted_files level) f && p (referred f) in
            count p (save_to user b base level)
            ≡ count q (base level) + count q (b.added_files level))
unfolding save_to
save_to-IsSorted user b base level lawful added sorted =
    let deleted = b.deleted_files level in
    let fs = b.added_files level in
    let same = save_loop-merge user deleted fs (base level) [] in
    (
      (rw same (
          saved-IsSorted user lawful deleted (merge user fs (base level))
            (merge-IsSorted user lawful fs (base level) added sorted))),
      λ p.
          ap (count p) same
          ∙ count-saved_files p deleted (merge user fs (base level))
          ∙ count-merge user (λ f. kept deleted f && p (referred f)) fs (base level),
    )
