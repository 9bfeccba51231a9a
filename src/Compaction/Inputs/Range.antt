-- ===== src/Compaction/Inputs/Range.antt =====
-- GetRange of Enclave/leveldb/db/version_set.cpp gives the least first key and the greatest last key.
use Prim.Native.Nat.{Ordering}
use mathlib.Core.Path.{subst}
use e_lsm_p.Base.{
  ℕ, suc, ◌<◌, ◌≡◌, ◌≢◌, ◌⊎◌, inl, inr, refl, sym, ap, Bool-cases, Bool, if◌then◌else◌, List, [],
  ◌∷◌, length, All, arith, true, false,
}
use e_lsm_p.Comparator.{Comparator, IsOrder}
use e_lsm_p.Comparator.Order.{flip_gt, le_of-lt, le_refl, le_trans}
use e_lsm_p.DbFormat.{internal_compare, internal_key_comparator, is_lt}
use e_lsm_p.DbFormat.Order.{internal_key_comparator-IsOrder}
use e_lsm_p.VersionEdit.{FileMetaData}
use e_lsm_p.Version.{file_at, is_gt}
use e_lsm_p.Version.Find.{lt_of-is_lt}
use e_lsm_p.Version.Ranges.{gt_of-is_gt}
use e_lsm_p.Compaction.{smallest_loop, largest_loop, get_range}

first_of : (b : Bool) (k l : List ℕ) → b ≡ true → (if b then k else l) ≡ k
first_of b k l e = rw e refl

second_of : (b : Bool) (k l : List ℕ) → b ≡ false → (if b then k else l) ≡ l
second_of b k l e = rw e refl

module _ (user : Comparator) where
  -- No file starts before the range or ends behind it, and files start and end at its ends.
  pub record IsRange (fs : List FileMetaData) (range : List ℕ × List ℕ) : Type 0 where
    pub lower : All (λ f. internal_compare user range.0 f.smallest ≢ Ordering.gt) fs
    pub upper : All (λ f. internal_compare user f.largest range.1 ≢ Ordering.gt) fs
    pub starts : (i : ℕ) × (i < length fs) × ((file_at fs i).smallest ≡ range.0)
    pub ends : (i : ℕ) × (i < length fs) × ((file_at fs i).largest ≡ range.1)

  module _ (lawful : IsOrder user) where
    internal_lawful : IsOrder (internal_key_comparator user)
    internal_lawful = internal_key_comparator-IsOrder user lawful

    at_most :
        (a b : List ℕ)
        → is_lt (internal_compare user b a) ≡ false
        → internal_compare user a b ≢ Ordering.gt
    at_most a b h more =
        let less : is_lt (internal_compare user b a) ≡ true =
          ap is_lt (flip_gt (internal_key_comparator user) internal_lawful a b more) in
        cc

    at_most_of-not_gt :
        (a b : List ℕ)
        → is_gt (internal_compare user a b) ≡ false
        → internal_compare user a b ≢ Ordering.gt
    at_most_of-not_gt a b h more =
        let greater : is_gt (internal_compare user a b) ≡ true = ap is_gt more in cc

    trans :
        (a b d : List ℕ)
        → internal_compare user a b ≢ Ordering.gt
        → internal_compare user b d ≢ Ordering.gt
        → internal_compare user a d ≢ Ordering.gt
    trans = le_trans (internal_key_comparator user) internal_lawful

    refl_le : (a : List ℕ) → internal_compare user a a ≢ Ordering.gt
    refl_le = le_refl (internal_key_comparator user) internal_lawful

    less :
        (a b : List ℕ)
        → is_lt (internal_compare user a b) ≡ true
        → internal_compare user a b ≢ Ordering.gt
    less a b h = le_of-lt (internal_key_comparator user) internal_lawful a b (lt_of-is_lt _ h)

    greater :
        (a b : List ℕ)
        → is_gt (internal_compare user a b) ≡ true
        → internal_compare user b a ≢ Ordering.gt
    greater a b h =
        less b a
          (ap is_lt (flip_gt (internal_key_comparator user) internal_lawful a b (gt_of-is_gt _ h)))

    abbrev IsLeast : List ℕ → List FileMetaData → List ℕ → Type 0
    IsLeast s fs r =
        (internal_compare user r s ≢ Ordering.gt)
        × All (λ f. internal_compare user r f.smallest ≢ Ordering.gt) fs
        × ((r ≡ s) ⊎ ((i : ℕ) × (i < length fs) × ((file_at fs i).smallest ≡ r)))

    smallest_loop-IsLeast :
        (s : List ℕ) (fs : List FileMetaData) → IsLeast s fs (smallest_loop user s fs)
    smallest_loop-IsLeast s [] = (refl_le s, tt, inl refl)
    smallest_loop-IsLeast s (f ∷ fs) =
        elim (Bool-cases (is_lt (internal_compare user f.smallest s))) [
          | inl below ↦
              let (low, all, met) = smallest_loop-IsLeast f.smallest fs in
              subst (IsLeast s (f ∷ fs))
                (sym (ap (λ (k : List ℕ). smallest_loop user k fs) (first_of _ _ _ below)))
                (
                  trans _ f.smallest s low (less f.smallest s below),
                  (low, all),
                  elim met [
                    | inl same ↦ inr (0, omega arith, sym same)
                    | inr (i, inside, same) ↦ inr (suc i, omega arith, same)
                  ],
                )
          | inr above ↦
              let (low, all, met) = smallest_loop-IsLeast s fs in
              subst (IsLeast s (f ∷ fs))
                (sym (ap (λ (k : List ℕ). smallest_loop user k fs) (second_of _ _ _ above)))
                (
                  low,
                  (trans _ s f.smallest low (at_most s f.smallest above), all),
                  elim met [
                    | inl same ↦ inl same
                    | inr (i, inside, same) ↦ inr (suc i, omega arith, same)
                  ],
                )
        ]

    abbrev IsGreatest : List ℕ → List FileMetaData → List ℕ → Type 0
    IsGreatest l fs r =
        (internal_compare user l r ≢ Ordering.gt)
        × All (λ f. internal_compare user f.largest r ≢ Ordering.gt) fs
        × ((r ≡ l) ⊎ ((i : ℕ) × (i < length fs) × ((file_at fs i).largest ≡ r)))

    largest_loop-IsGreatest :
        (l : List ℕ) (fs : List FileMetaData) → IsGreatest l fs (largest_loop user l fs)
    largest_loop-IsGreatest l [] = (refl_le l, tt, inl refl)
    largest_loop-IsGreatest l (f ∷ fs) =
        elim (Bool-cases (is_gt (internal_compare user f.largest l))) [
          | inl above ↦
              let (high, all, met) = largest_loop-IsGreatest f.largest fs in
              subst (IsGreatest l (f ∷ fs))
                (sym (ap (λ (k : List ℕ). largest_loop user k fs) (first_of _ _ _ above)))
                (
                  trans l f.largest _ (greater f.largest l above) high,
                  (high, all),
                  elim met [
                    | inl same ↦ inr (0, omega arith, sym same)
                    | inr (i, inside, same) ↦ inr (suc i, omega arith, same)
                  ],
                )
          | inr below ↦
              let (high, all, met) = largest_loop-IsGreatest l fs in
              subst (IsGreatest l (f ∷ fs))
                (sym (ap (λ (k : List ℕ). largest_loop user k fs) (second_of _ _ _ below)))
                (
                  high,
                  (trans f.largest l _ (at_most_of-not_gt f.largest l below) high, all),
                  elim met [
                    | inl same ↦ inl same
                    | inr (i, inside, same) ↦ inr (suc i, omega arith, same)
                  ],
                )
        ]

    pub get_range-IsRange :
        (fs : List FileMetaData) → 0 < length fs → IsRange fs (get_range user fs)
    get_range-IsRange [] h = absurd (omega arith)
    get_range-IsRange (f ∷ fs) h =
        let (low, all_low, met_low) = smallest_loop-IsLeast f.smallest fs in
        let (high, all_high, met_high) = largest_loop-IsGreatest f.largest fs in
        record {
          lower = (low, all_low);
          upper = (high, all_high);
          starts = elim met_low [
            | inl same ↦ (0, omega arith, sym same)
            | inr (i, inside, same) ↦ (suc i, omega arith, same)
          ];
          ends = elim met_high [
            | inl same ↦ (0, omega arith, sym same)
            | inr (i, inside, same) ↦ (suc i, omega arith, same)
          ];
        }
