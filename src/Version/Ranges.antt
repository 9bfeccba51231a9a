-- ===== src/Version/Ranges.antt =====
-- The range of GetOverlappingInputs of Enclave/leveldb/db/version_set.cpp: how it widens, and what is left to restart
-- for.
use Prim.Native.Nat.{Ordering}
use e_lsm_p.Base.{
  filter, count, count_less, ℕ, ◌+◌, ◌<◌, ◌≡◌, refl, ap, ◌∙◌, Bool, true, false, not, ◌&&◌, ◌||◌,
  Option, none, some, List, ◌∷◌, ◌++◌, All, arith,
}
use e_lsm_p.Comparator.{Comparator, IsComparator, swapped}
use e_lsm_p.Comparator.Order.{flip_gt}
use e_lsm_p.DbFormat.{is_lt, extract_user_key}
use e_lsm_p.VersionEdit.{FileMetaData}
use e_lsm_p.Version.{is_gt, is_before, is_after, starts_earlier, ends_later}
use e_lsm_p.Version.Find.{lt_of-is_lt}

module _ (user : Comparator) where
  -- The file reaches into the range.
  abbrev pub touches : Option (List ℕ) → Option (List ℕ) → FileMetaData → Bool
  touches begin end f = not (is_before user begin f || is_after user end f)

  -- The file does not reach beyond the range.
  abbrev pub IsWithin : Option (List ℕ) → Option (List ℕ) → FileMetaData → Type 0
  IsWithin begin end f = (starts_earlier user begin f ≡ false) × (ends_later user end f ≡ false)

  -- `result` are the files of `all` that touch a range which holds that from `begin` to `end`, and for
  -- level 0 no file of it reaches beyond that range; for the other levels it is the range itself.
  pub record Gathered (level0 : Bool) (all : List FileMetaData) (begin end : Option (List ℕ))
      (result : List FileMetaData) : Type 0 where
    pub first : Option (List ℕ)
    pub last : Option (List ℕ)
    pub first_wider :
        (f : FileMetaData) → is_before user first f ≡ true → is_before user begin f ≡ true
    pub last_wider : (f : FileMetaData) → is_after user last f ≡ true → is_after user end f ≡ true
    pub files : result ≡ filter (touches first last) all
    pub within : level0 ≡ true → All (IsWithin first last) result
    pub exact : level0 ≡ false → (first ≡ begin) × (last ≡ end)

  abbrev pub restarts_needed : List FileMetaData → Option (List ℕ) → Option (List ℕ) → ℕ
  restarts_needed all begin end =
      count (starts_earlier user begin) all + count (ends_later user end) all

pub gt_of-is_gt : (o : Ordering) → is_gt o ≡ true → o ≡ Ordering.gt
gt_of-is_gt Ordering.lt h = cc
gt_of-is_gt Ordering.eq h = cc
gt_of-is_gt Ordering.gt h = refl

pub and_left : (a b : Bool) → a && b ≡ true → a ≡ true
and_left true b h = refl
and_left false b h = cc

pub and_right : (a b : Bool) → a && b ≡ true → b ≡ true
and_right true b h = h
and_right false b h = cc

pub neither : (a b d : Bool) → a && b ≡ false → a && d ≡ false → a && (b || d) ≡ false
neither true b d h k = rw h k
neither false b d h k = refl

pub stays : (a b d : Bool) → a && b ≡ false → a && d ≡ false → a ≡ true → (b ≡ false) × (d ≡ false)
stays true b d h k same = (h, k)
stays false b d h k same = absurd (let wrong : ⊥ = cc in wrong)

module _ (user : Comparator) (lawful : IsComparator user) where
  less_than :
      (a b d : List ℕ)
      → is_lt (user.compare a b) ≡ true
      → is_lt (user.compare b d) ≡ true
      → is_lt (user.compare a d) ≡ true
  less_than a b d h k =
      ap is_lt (lawful.order.compare_trans a b d (lt_of-is_lt _ h) (lt_of-is_lt _ k))

  more_than :
      (a b d : List ℕ)
      → is_gt (user.compare a b) ≡ true
      → is_gt (user.compare b d) ≡ true
      → is_gt (user.compare a d) ≡ true
  more_than a b d h k = ap is_gt (
      lawful.order.compare_swap d a
      ∙ ap swapped (
          lawful.order.compare_trans d b a (flip_gt user lawful.order b d (gt_of-is_gt _ k))
            (flip_gt user lawful.order a b (gt_of-is_gt _ h))))

  -- A range that starts at a file which reaches beyond it skips fewer files, and fewer reach beyond it.
  pub earlier_skips :
      (begin : Option (List ℕ)) (f : FileMetaData)
      → starts_earlier user begin f ≡ true
      → (g : FileMetaData) → is_before user (some (extract_user_key f.smallest)) g ≡ true
      → is_before user begin g ≡ true
  earlier_skips none f h g k = cc
  earlier_skips (some u) f h g k =
      less_than (extract_user_key g.largest) (extract_user_key f.smallest) u k h

  earlier_reaches :
      (begin : Option (List ℕ)) (f : FileMetaData)
      → starts_earlier user begin f ≡ true
      → (g : FileMetaData) → starts_earlier user (some (extract_user_key f.smallest)) g ≡ true
      → starts_earlier user begin g ≡ true
  earlier_reaches none f h g k = cc
  earlier_reaches (some u) f h g k =
      less_than (extract_user_key g.smallest) (extract_user_key f.smallest) u k h

  pub later_skips :
      (end : Option (List ℕ)) (f : FileMetaData)
      → ends_later user end f ≡ true
      → (g : FileMetaData) → is_after user (some (extract_user_key f.largest)) g ≡ true
      → is_after user end g ≡ true
  later_skips none f h g k = cc
  later_skips (some u) f h g k =
      more_than (extract_user_key g.smallest) (extract_user_key f.largest) u k h

  later_reaches :
      (end : Option (List ℕ)) (f : FileMetaData)
      → ends_later user end f ≡ true
      → (g : FileMetaData) → ends_later user (some (extract_user_key f.largest)) g ≡ true
      → ends_later user end g ≡ true
  later_reaches none f h g k = cc
  later_reaches (some u) f h g k =
      more_than (extract_user_key g.largest) (extract_user_key f.largest) u k h

  -- So a restart leaves fewer restarts to make.
  pub fewer_earlier :
      (xs : List FileMetaData) (f : FileMetaData) (ys : List FileMetaData)
      (begin end : Option (List ℕ))
      → starts_earlier user begin f ≡ true
      → restarts_needed user (xs ++ (f ∷ ys)) (some (extract_user_key f.smallest)) end
        < restarts_needed user (xs ++ (f ∷ ys)) begin end
  fewer_earlier xs f ys begin end h =
      let less =
        count_less (starts_earlier user (some (extract_user_key f.smallest)))
          (starts_earlier user begin) (earlier_reaches begin f h) xs f ys
          (ap is_lt (lawful.order.compare_refl (extract_user_key f.smallest))) h in
      omega (arith, less)

  pub fewer_later :
      (xs : List FileMetaData) (f : FileMetaData) (ys : List FileMetaData)
      (begin end : Option (List ℕ))
      → ends_later user end f ≡ true
      → restarts_needed user (xs ++ (f ∷ ys)) begin (some (extract_user_key f.largest))
        < restarts_needed user (xs ++ (f ∷ ys)) begin end
  fewer_later xs f ys begin end h =
      let less =
        count_less (ends_later user (some (extract_user_key f.largest))) (ends_later user end)
          (later_reaches end f h) xs f ys
          (ap is_gt (lawful.order.compare_refl (extract_user_key f.largest))) h in
      omega (arith, less)
