-- ===== src/Compaction/BaseLevel.antt =====
-- IsBaseLevelForKey of the class Compaction, Enclave/leveldb/db/version_set.cpp: the pointers that it moves through the
-- deeper levels, as the keys of a merge ascend.
use Prim.Native.Nat.{Ordering}
use e_lsm_p.Base.{
  ℕ, zero, suc, ◌+◌, ◌-◌, ◌≤◌, ◌<◌, ◌≡◌, ◌≢◌, inl, inr, refl, ap, Bool, true, false, not, List,
  length, ltb, ◌==◌, if◌then◌else◌, arith, Bool-cases, ltb→lt, ==_iff,
}
use e_lsm_p.Comparator.{Comparator, IsComparator}
use e_lsm_p.Comparator.Order.{lt_of-lt-le, flip_gt, flip_lt}
use e_lsm_p.DbFormat.{is_lt, extract_user_key}
use e_lsm_p.VersionEdit.{FileMetaData, num_levels}
use e_lsm_p.Version.{Files, is_gt, file_at}
use e_lsm_p.Version.Find.{lt_of-is_lt}
use e_lsm_p.Version.Ranges.{gt_of-is_gt}
use native.Mathlib.Decide.{ℕ_discrete}

-- The files of a level have their first user keys in order.
abbrev pub StartsInOrder : Comparator → List FileMetaData → Type 0
StartsInOrder user fs =
    (i j : ℕ)
    → i ≤ j
    → j < length fs
    → user.compare (extract_user_key (file_at fs i).smallest)
        (extract_user_key (file_at fs j).smallest)
      ≢ Ordering.gt

module _ (user : Comparator) (user_key : List ℕ) where
  -- The tests on a file: the key is behind it, or before it.
  abbrev pub is_past : FileMetaData → Bool
  is_past f = is_gt (user.compare user_key (extract_user_key f.largest))

  abbrev pub is_short_of : FileMetaData → Bool
  is_short_of f = is_lt (user.compare user_key (extract_user_key f.smallest))

  -- The loop over the files of a level, with the rounds that are left: whether a file holds the key in its range, and
  -- the pointer it leaves.
  unfoldable pub level_loop : List FileMetaData → ℕ → ℕ → Bool × ℕ
  level_loop fs zero ptr = (false, ptr)
  level_loop fs (suc rounds) ptr =
      let further = level_loop fs rounds (ptr + 1) in
      if ltb ptr (length fs)
      then (if is_past (file_at fs ptr) then further else (not (is_short_of (file_at fs ptr)), ptr))
      else (false, ptr)

  -- `level_ptrs_[lvl] = ptr`.
  abbrev pub move : (ℕ → ℕ) → ℕ → ℕ → ℕ → ℕ
  move ptrs lvl ptr j = if j == lvl then ptr else ptrs j

  -- The loop over the levels, with those that are left. A level has as many rounds as files behind its pointer.
  unfoldable pub base_loop : Files → ℕ → ℕ → (ℕ → ℕ) → Bool × (ℕ → ℕ)
  unfolding level_loop
  base_loop files zero lvl ptrs = (true, ptrs)
  base_loop files (suc levels) lvl ptrs =
      let (held, ptr) = level_loop (files lvl) (length (files lvl) - ptrs lvl) (ptrs lvl) in
      let rest = base_loop files levels (lvl + 1) (move ptrs lvl ptr) in
      if held then (false, move ptrs lvl ptr) else rest

  unfoldable pub is_base_level_for_key : Files → ℕ → (ℕ → ℕ) → Bool × (ℕ → ℕ)
  unfolding base_loop
  is_base_level_for_key files level ptrs =
      base_loop files (num_levels - (level + 2)) (level + 2) ptrs

  -- The key falls into the range of the file.
  abbrev pub IsHeld : FileMetaData → Type 0
  IsHeld f = (is_past f ≡ false) × (is_short_of f ≡ false)

  -- The files before the pointer are behind the key.
  abbrev pub IsPassed : List FileMetaData → ℕ → Type 0
  IsPassed fs ptr = (i : ℕ) → i < ptr → i < length fs → is_past (file_at fs i) ≡ true

  data Outcome (fs : List FileMetaData) (found : Bool × ℕ) : Type 0 where
    held :
        (ptr : ℕ)
        → found ≡ (true, ptr)
        → ptr < length fs
        → IsHeld (file_at fs ptr)
        → IsPassed fs ptr
        → Outcome fs found
    free :
        (ptr : ℕ)
        → found ≡ (false, ptr)
        → ((i : ℕ) → i < length fs → IsHeld (file_at fs i) → ⊥)
        → IsPassed fs ptr
        → Outcome fs found

  module _ (lawful : IsComparator user) where
    -- A key that a file starts behind is in no later file.
    short_of_later :
        (fs : List FileMetaData)
        → StartsInOrder user fs
        → (i j : ℕ) → i ≤ j
        → j < length fs
        → is_short_of (file_at fs i) ≡ true
        → is_short_of (file_at fs j) ≡ true
    short_of_later fs starts i j h inside short = ap is_lt (
        lt_of-lt-le user lawful.order user_key (extract_user_key (file_at fs i).smallest)
          (extract_user_key (file_at fs j).smallest) (lt_of-is_lt _ short) (starts i j h inside))

    no_holder :
        (fs : List FileMetaData)
        → StartsInOrder user fs
        → (ptr : ℕ) → IsPassed fs ptr
        → is_short_of (file_at fs ptr) ≡ true
        → (i : ℕ) → i < length fs
        → IsHeld (file_at fs i)
        → ⊥
    no_holder fs starts ptr passed short i inside (not_past, not_short) =
        elim (Bool-cases (ltb i ptr)) [
          | inl before ↦ let past = passed i (ltb→lt i ptr before) inside in cc
          | inr behind ↦
              let later = short_of_later fs starts ptr i (ground (arith, behind)) inside short in cc
        ]

    past_next :
        (fs : List FileMetaData) (ptr : ℕ)
        → IsPassed fs ptr
        → is_past (file_at fs ptr) ≡ true
        → IsPassed fs (ptr + 1)
    past_next fs ptr passed here i h inside = elim (ℕ_discrete i ptr) [
      | yes same ↦ rw same here
      | no other ↦ passed i (omega arith) inside
    ]

    level_loop-Outcome :
        (fs : List FileMetaData)
        → StartsInOrder user fs
        → (rounds ptr : ℕ) → length fs ≤ ptr + rounds
        → IsPassed fs ptr
        → Outcome fs (level_loop fs rounds ptr)
    unfolding level_loop
    level_loop-Outcome fs starts zero ptr enough passed =
        free ptr refl
          (λ i inside (not_past, not_short). let past = passed i (omega arith) inside in cc) passed
    level_loop-Outcome fs starts (suc rounds) ptr enough passed =
        elim (Bool-cases (ltb ptr (length fs))) [
          | inr ended ↦ rw ended (
              free ptr refl
                (λ i inside (not_past, not_short).
                  let past = passed i (ground (arith, ended, inside)) inside in cc)
                passed)
          | inl inside ↦ elim (Bool-cases (is_past (file_at fs ptr))) [
            | inl past ↦
                rw (inside, past)
                  (level_loop-Outcome fs starts rounds (ptr + 1) (omega arith)
                    (past_next fs ptr passed past))
            | inr not_past ↦ elim (Bool-cases (is_short_of (file_at fs ptr))) [
              | inl short ↦
                  rw (inside, not_past, short)
                    (free ptr refl (no_holder fs starts ptr passed short) passed)
              | inr not_short ↦
                  rw (inside, not_past, not_short)
                    (held ptr refl (ltb→lt ptr (length fs) inside) (not_past, not_short) passed)
            ]
          ]
        ]

  abbrev pub AllPassed : Files → (ℕ → ℕ) → Type 0
  AllPassed files ptrs = (lvl : ℕ) → IsPassed (files lvl) (ptrs lvl)

  -- No file of the levels from `low` to before `high` holds the key, if the answer is true, and one does, if
  -- it is false. The files before the pointers stay behind the key.
  pub record Answers (files : Files) (low high : ℕ) (found : Bool × (ℕ → ℕ)) : Type 0 where
    pub none_holds :
        found.0 ≡ true
        → (lvl i : ℕ) → low ≤ lvl
        → lvl < high
        → i < length (files lvl)
        → IsHeld (file_at (files lvl) i)
        → ⊥
    pub one_holds :
        found.0 ≡ false
        → (lvl : ℕ) × (i : ℕ) × (low ≤ lvl)
          × (lvl < high)
          × (i < length (files lvl))
          × IsHeld (file_at (files lvl) i)
    pub passed : AllPassed files found.1

  module _ (lawful : IsComparator user) (files : Files)
      (starts : (lvl : ℕ) → StartsInOrder user (files lvl)) where
    moved_passed :
        (ptrs : ℕ → ℕ) (lvl ptr : ℕ)
        → AllPassed files ptrs
        → IsPassed (files lvl) ptr
        → AllPassed files (move ptrs lvl ptr)
    moved_passed ptrs lvl ptr all here j i h inside = elim (Bool-cases (j == lvl)) [
      | inl same ↦
          let j_is : j ≡ lvl = (==_iff j lvl).0 same in
          let less : i < ptr = rw same at h in rw j_is (here i less (rw j_is at inside))
      | inr other ↦ all j i (rw other at h) inside
    ]

    found_here :
        (levels lvl : ℕ) (ptrs : ℕ → ℕ) (ptr : ℕ)
        → ptr < length (files lvl)
        → IsHeld (file_at (files lvl) ptr)
        → IsPassed (files lvl) ptr
        → AllPassed files ptrs
        → Answers files lvl (lvl + suc levels) (false, move ptrs lvl ptr)
    found_here levels lvl ptrs ptr inside holds passed all = record {
      none_holds = λ h. absurd (let wrong : ⊥ = cc in wrong);
      one_holds = λ h. (lvl, ptr, omega arith, omega arith, inside, holds);
      passed = moved_passed ptrs lvl ptr all passed;
    }

    found_below :
        (levels lvl : ℕ) (found : Bool × (ℕ → ℕ))
        → ((i : ℕ) → i < length (files lvl) → IsHeld (file_at (files lvl) i) → ⊥)
        → Answers files (lvl + 1) (lvl + 1 + levels) found
        → Answers files lvl (lvl + suc levels) found
    found_below levels lvl found nothing answers = record {
      none_holds = λ base j i low high inside holds. elim (ℕ_discrete j lvl) [
        | yes same ↦ nothing i (rw same at inside) (rw same at holds)
        | no other ↦ answers.none_holds base j i (omega arith) (omega arith) inside holds
      ];
      one_holds = λ found_one.
          let (j, i, low, high, inside, holds) = answers.one_holds found_one in
          (j, i, omega arith, omega arith, inside, holds);
      passed = answers.passed;
    }

    base_loop-Answers :
        (levels lvl : ℕ) (ptrs : ℕ → ℕ)
        → AllPassed files ptrs
        → Answers files lvl (lvl + levels) (base_loop files levels lvl ptrs)
    unfolding base_loop
    base_loop-Answers zero lvl ptrs all = record {
      none_holds = λ h j i low high. absurd (omega arith);
      one_holds = λ h. absurd (let wrong : ⊥ = cc in wrong);
      passed = all;
    }
    base_loop-Answers (suc levels) lvl ptrs all =
        elim (level_loop-Outcome lawful (files lvl) (starts lvl) (length (files lvl) - ptrs lvl)
          (ptrs lvl) (omega arith) (all lvl)) [
            | held ptr found inside holds passed ↦
                rw found (found_here levels lvl ptrs ptr inside holds passed all)
            | free ptr found nothing passed ↦ rw found (
                found_below levels lvl (base_loop files levels (lvl + 1) (move ptrs lvl ptr))
                  nothing
                  (base_loop-Answers levels (lvl + 1) (move ptrs lvl ptr)
                    (moved_passed ptrs lvl ptr all passed)))
          ]

-- A file that a key has passed is passed by later keys.
later_passed :
    (user : Comparator) (lawful : IsComparator user) (key key' : List ℕ) (files : Files)
    (ptrs : ℕ → ℕ)
    → user.compare key key' ≢ Ordering.gt
    → AllPassed user key files ptrs
    → AllPassed user key' files ptrs
later_passed user lawful key key' files ptrs order all lvl i h inside =
    let limit = extract_user_key (file_at (files lvl) i).largest in
    ap is_gt (
      flip_lt user lawful.order limit key' (
        lt_of-lt-le user lawful.order limit key key'
          (flip_gt user lawful.order key limit (gt_of-is_gt _ (all lvl i h inside))) order))

-- IsBaseLevelForKey answers for the levels from level_ + 2 on: true, and no file there has the key in its range,
-- or false, and one has. This holds though it never looks again at the files that its pointers have passed: those
-- are behind the key, and stay behind the later keys. The files of each level start in order.
pub is_base_level_for_key-Answers :
    (user : Comparator) (key : List ℕ) (files : Files) (level : ℕ) (ptrs : ℕ → ℕ)
    → IsComparator user
    → ((lvl : ℕ) → StartsInOrder user (files lvl))
    → AllPassed user key files ptrs
    → Answers user key files
        (level + 2)
        num_levels
        (is_base_level_for_key user key files level ptrs)
      × ((key' : List ℕ)
          → user.compare key key' ≢ Ordering.gt
          → AllPassed user key' files (is_base_level_for_key user key files level ptrs).1)
unfolding is_base_level_for_key
is_base_level_for_key-Answers user key files level ptrs lawful starts all =
    let answers =
      base_loop-Answers user key lawful files starts (num_levels - (level + 2)) (level + 2) ptrs
        all in
    (
      record {
        none_holds = λ h lvl i low high. answers.none_holds h lvl i low (omega arith);
        one_holds = λ h.
            let (lvl, i, low, high, inside, holds) = answers.one_holds h in
            (lvl, i, low, omega arith, inside, holds);
        passed = answers.passed;
      },
      λ key' later. later_passed user lawful key key' files _ later answers.passed,
    )
