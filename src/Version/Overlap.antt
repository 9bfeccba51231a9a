-- ===== src/Version/Overlap.antt =====
-- SomeFileOverlapsRange of Enclave/leveldb/db/version_set.cpp: the binary search of a sorted level gives
-- the answer of the walk over all files.
use Prim.Native.Nat.{Ordering}
use e_lsm_p.Base.{
  ℕ, zero, suc, ◌+◌, ◌*◌, ◌^◌, ◌≤◌, ◌<◌, ◌≡◌, ◌≢◌, inl, inr, refl, sym, ap, ◌∙◌, Bool, true, false,
  ◌||◌, Option, none, some, List, [], ◌∷◌, length, leb, ltb, arith, Bool-cases, leb→le,
}
use e_lsm_p.Comparator.{Comparator, IsComparator, IsOrder, swapped}
use e_lsm_p.Comparator.Order.{lt_of-le-lt, lt_of-lt-le, le_of-lt, le_refl}
use e_lsm_p.DbFormat.{
  internal_compare, internal_key_comparator, is_lt, extract_user_key, extract_tag,
  max_sequence_number, or_by_tag, value_type_for_seek, ParsedInternalKey,
}
use e_lsm_p.DbFormat.Keys.{extract-append_internal_key}
use e_lsm_p.DbFormat.Order.{internal_key_comparator-IsOrder}
use e_lsm_p.VersionEdit.{FileMetaData}
use e_lsm_p.Version.{
  file_at, earliest_key, after_file, before_file, any_overlap, start_index,
  some_file_overlaps_range, is_gt,
}
use e_lsm_p.Version.Find.{AreSorted, file_index-Parts, lt_of-is_lt}
use native.Mathlib.Decide.{ℕ_discrete}

-- The files of a level above 0: each has its keys in order, and ends before the next one starts. The tags of
-- keys are those of sequence numbers in range.
pub record AreDisjoint (user : Comparator) (files : List FileMetaData) : Type 0 where
  pub ordered :
      (i : ℕ)
      → i < length files
      → internal_compare user (file_at files i).smallest (file_at files i).largest ≢ Ordering.gt
  pub apart :
      (i j : ℕ)
      → i < j
      → j < length files
      → internal_compare user (file_at files i).largest (file_at files j).smallest ≡ Ordering.lt
  pub tags :
      (i : ℕ)
      → i < length files
      → extract_tag (file_at files i).largest ≤ max_sequence_number * 256 + 1

internal_compare-by_tag :
    (user : Comparator) (a b : List ℕ)
    → internal_compare user a b
      ≡ or_by_tag
          (extract_tag a)
          (extract_tag b)
          (user.compare (extract_user_key a) (extract_user_key b))
unfolding internal_compare
internal_compare-by_tag user a b = refl

by_order : (m n : ℕ) (o : Ordering) → ltb n m ≡ false → is_lt (or_by_tag m n o) ≡ is_gt (swapped o)
by_order m n Ordering.lt h = refl
by_order m n Ordering.eq h = ground arith
by_order m n Ordering.gt h = refl

module _ (user : Comparator) (lawful : IsComparator user) where
  pub user_order :
      (a b : List ℕ)
      → internal_compare user a b ≢ Ordering.gt
      → user.compare (extract_user_key a) (extract_user_key b) ≢ Ordering.gt
  unfolding internal_compare
  user_order a b h = λ bad. h (rw bad refl)

  earliest_order :
      (a u : List ℕ)
      → extract_tag a ≤ max_sequence_number * 256 + 1
      → is_lt (internal_compare user a (earliest_key u))
        ≡ is_gt (user.compare u (extract_user_key a))
  earliest_order a u small =
      let k : ParsedInternalKey = record {
        user_key = u;
        sequence = max_sequence_number;
        type = value_type_for_seek;
      } in
      let (whose, tag, size) = extract-append_internal_key k (omega arith) in
      let not_above : ltb (extract_tag (earliest_key u)) (extract_tag a) ≡ false =
        ground (arith, tag, small) in
      let whole =
        internal_compare-by_tag user a (earliest_key u)
        ∙ ap
            (λ w.
              or_by_tag (extract_tag a) (extract_tag (earliest_key u))
                (user.compare (extract_user_key a) w))
            whose in
      ap is_lt whole
      ∙ by_order (extract_tag a) (extract_tag (earliest_key u))
          (user.compare (extract_user_key a) u) not_above
      ∙ ap is_gt (sym (lawful.order.compare_swap (extract_user_key a) u))

module _ (user : Comparator) (smallest largest : Option (List ℕ)) where
  misses : FileMetaData → Bool
  misses f = after_file user smallest f || before_file user largest f

  misses_of-after : (f : FileMetaData) → after_file user smallest f ≡ true → misses f ≡ true
  unfolding misses
  misses_of-after f after = rw after refl

  misses_of-before : (f : FileMetaData) → before_file user largest f ≡ true → misses f ≡ true
  unfolding misses
  misses_of-before f before = ground (arith, before)

  misses_neither :
      (f : FileMetaData)
      → after_file user smallest f ≡ false
      → before_file user largest f ≡ false
      → misses f ≡ false
  unfolding misses
  misses_neither f after before = rw (after, before) refl

  any_overlap-hit :
      (files : List FileMetaData) (i : ℕ)
      → i < length files
      → misses (file_at files i) ≡ false
      → any_overlap user smallest largest files ≡ true
  unfolding any_overlap misses
  any_overlap-hit [] i inside hit = absurd (omega arith)
  any_overlap-hit (f ∷ files) zero inside hit = rw hit refl
  any_overlap-hit (f ∷ files) (suc i) inside hit =
      let rest = any_overlap-hit files i (omega arith) hit in ground (arith, rest)

  any_overlap-miss :
      (files : List FileMetaData)
      → ((i : ℕ) → i < length files → misses (file_at files i) ≡ true)
      → any_overlap user smallest largest files ≡ false
  unfolding any_overlap misses
  any_overlap-miss [] all = refl
  any_overlap-miss (f ∷ files) all =
      rw (all 0 (omega arith)) (any_overlap-miss files (λ i h. all (suc i) (omega arith)))

module _ (user : Comparator) (lawful : IsComparator user) (files : List FileMetaData)
    (disjoint : AreDisjoint user files) (small : length files < 2 ^ 31) where
  internal_lawful : IsOrder (internal_key_comparator user)
  internal_lawful = internal_key_comparator-IsOrder user lawful.order

  pub files-AreSorted : AreSorted user files
  files-AreSorted i j h inside = elim (ℕ_discrete i j) [
    | yes same ↦
        rw same (le_refl (internal_key_comparator user) internal_lawful (file_at files j).largest)
    | no other ↦
        le_of-lt (internal_key_comparator user) internal_lawful (file_at files i).largest
          (file_at files j).largest
          (lt_of-lt-le (internal_key_comparator user) internal_lawful (file_at files i).largest
            (file_at files j).smallest (file_at files j).largest
            (disjoint.apart i j (omega arith) inside) (disjoint.ordered j inside))
  ]

  -- The first user keys of the files are in order too.
  pub starts_in_order :
      (i j : ℕ)
      → i ≤ j
      → j < length files
      → user.compare
          (extract_user_key (file_at files i).smallest)
          (extract_user_key (file_at files j).smallest)
        ≢ Ordering.gt
  starts_in_order i j h inside = elim (ℕ_discrete i j) [
    | yes same ↦ rw same (le_refl user lawful.order (extract_user_key (file_at files j).smallest))
    | no other ↦ user_order user lawful (file_at files i).smallest (file_at files j).smallest (
        le_of-lt (internal_key_comparator user) internal_lawful (file_at files i).smallest
          (file_at files j).smallest
          (lt_of-le-lt (internal_key_comparator user) internal_lawful (file_at files i).smallest
            (file_at files i).largest (file_at files j).smallest (disjoint.ordered i (omega arith))
            (disjoint.apart i j (omega arith) inside)))
  ]

  before_from :
      (largest : Option (List ℕ)) (r i : ℕ)
      → r ≤ i
      → i < length files
      → before_file user largest (file_at files r) ≡ true
      → before_file user largest (file_at files i) ≡ true
  unfolding before_file
  before_from none r i h inside before = before
  before_from (some w) r i h inside before = ap is_lt (
      lt_of-lt-le user lawful.order w (extract_user_key (file_at files r).smallest)
        (extract_user_key (file_at files i).smallest) (lt_of-is_lt _ before)
        (starts_in_order r i h inside))

  -- The index at which the binary search starts parts the files by AfterFile.
  start_parts :
      (smallest : Option (List ℕ))
      → let r = start_index user files smallest in
        ((i : ℕ) → i < r → i < length files → after_file user smallest (file_at files i) ≡ true)
        × ((i : ℕ) → r ≤ i → i < length files → after_file user smallest (file_at files i) ≡ false)
  unfolding after_file
  start_parts none = (λ i h inside. absurd (omega arith), λ i h inside. refl)
  start_parts (some u) =
      let (bound, below, above) =
        file_index-Parts user files (earliest_key u) lawful files-AreSorted small in
      let same = λ (i : ℕ) (inside : i < length files).
        earliest_order user lawful (file_at files i).largest u (disjoint.tags i inside) in
      (
        λ i h inside. sym (same i inside) ∙ below i h,
        λ i h inside. sym (same i inside) ∙ above i h inside,
      )

  -- On a level whose files are disjoint and sorted, the binary search of SomeFileOverlapsRange answers as
  -- the walk over all files does, for any range, open at either end or not. There are fewer than 2 ^ 31
  -- files.
  pub some_file_overlaps_range-sorted :
      (smallest largest : Option (List ℕ))
      → some_file_overlaps_range user true files smallest largest
        ≡ some_file_overlaps_range user false files smallest largest
  unfolding some_file_overlaps_range
  some_file_overlaps_range-sorted smallest largest =
      let r = start_index user files smallest in
      let (below, above) = start_parts smallest in
      elim (Bool-cases (leb (length files) r)) [
        | inl beyond ↦
            let far = leb→le (length files) r beyond in
            rw beyond (
              sym (
                any_overlap-miss user smallest largest files (λ i h.
                  misses_of-after user smallest largest (file_at files i)
                    (below i (omega arith) h))))
        | inr within ↦
            let near : r < length files = ground arith in
            elim (Bool-cases (before_file user largest (file_at files r))) [
              | inl before ↦
                  rw (within, before)
                    (sym (
                      any_overlap-miss user smallest largest files (λ i h.
                        elim (Bool-cases (leb r i)) [
                          | inl reached ↦
                              misses_of-before user smallest largest (file_at files i)
                                (before_from largest r i (leb→le r i reached) h before)
                          | inr not_yet ↦
                              misses_of-after user smallest largest (file_at files i)
                                (below i (ground arith) h)
                        ])))
              | inr not_before ↦
                  rw (within, not_before)
                    (sym (
                      any_overlap-hit user smallest largest files r near (
                        misses_neither user smallest largest (file_at files r)
                          (above r (omega arith) near) not_before)))
            ]
      ]
