-- ===== src/Version/Pick.antt =====
-- PickLevelForMemTableOutput of Enclave/leveldb/db/version_set.cpp: the level that a new table goes to.
use Prim.Native.Nat.{Ordering}
use mathlib.Core.Path.{subst}
use e_lsm_p.Base.{
  ℕ, zero, suc, ◌+◌, ◌*◌, ◌^◌, ◌≤◌, ◌<◌, ◌≡◌, ◌⊎◌, ◌↔◌, inl, inr, refl, sym, ap, ◌∙◌, ◌||◌, Bool,
  true, false, Option, none, some, List, [], ◌∷◌, length, All, ltb, if◌then◌else◌, arith,
  Bool-cases,
}
use e_lsm_p.Comparator.{Comparator, IsComparator}
use e_lsm_p.DbFormat.{append_internal_key, extract_user_key, is_lt, type_deletion}
use e_lsm_p.VersionEdit.{FileMetaData, num_levels}
use e_lsm_p.Version.{
  Files, after_file, any_overlap, before_file, earliest_key, get_overlapping_inputs, is_gt,
  overlap_in_level, some_file_overlaps_range, total_file_size,
}
use e_lsm_p.Version.Find.{lt_of-is_lt}
use e_lsm_p.Version.Inputs.{get_overlapping_inputs-Gathered}
use e_lsm_p.Version.Overlap.{AreDisjoint, some_file_overlaps_range-sorted}
use e_lsm_p.Version.Ranges.{gt_of-is_gt}
use native.Mathlib.Decide.{ℕ_discrete}

abbrev pub max_mem_compact_level : ℕ
max_mem_compact_level = 2

-- MaxGrandParentOverlapBytes, of options->max_file_size. The product is an int: sizes from 214748365 on, which
-- the options allow, overflow it, and are outside the model.
abbrev pub max_grand_parent_overlap_bytes : ℕ → ℕ
max_grand_parent_overlap_bytes max_file_size = 10 * max_file_size

-- InternalKey(user_key, 0, static_cast<ValueType>(0)).
abbrev pub latest_key : List ℕ → List ℕ
latest_key u = append_internal_key [] (record { user_key = u; sequence = 0; type = type_deletion })

module _ (user : Comparator) (max_file_size : ℕ) (files : Files) (smallest largest : List ℕ) where
  -- Does too much of the level after the next one overlap? `none` is out of restarts.
  unfoldable pub too_many_grandparents : ℕ → Option Bool
  unfolding get_overlapping_inputs total_file_size
  too_many_grandparents level =
      let overlaps =
        get_overlapping_inputs user files (level + 2) (some (earliest_key smallest))
          (some (latest_key largest)) in
      if ltb (level + 2) num_levels
      then (elim overlaps [
        | none ↦ none
        | some taken ↦
            some (ltb (max_grand_parent_overlap_bytes max_file_size) (total_file_size taken))
      ])
      else some false

  -- The loop, with the levels that are left.
  unfoldable pub pick_loop : ℕ → ℕ → Option ℕ
  unfolding overlap_in_level too_many_grandparents
  pick_loop zero level = some level
  pick_loop (suc levels) level =
      let deeper = pick_loop levels (level + 1) in
      if overlap_in_level user files (level + 1) (some smallest) (some largest)
      then some level
      else (elim (too_many_grandparents level) [
        | none ↦ none
        | some true ↦ some level
        | some false ↦ deeper
      ])

  unfoldable pub pick_level_for_mem_table_output : Option ℕ
  unfolding pick_loop overlap_in_level
  pick_level_for_mem_table_output =
      if overlap_in_level user files 0 (some smallest) (some largest)
      then some 0
      else pick_loop max_mem_compact_level 0

  -- The file lies outside the range of the new table: it ends before it or starts behind it.
  abbrev pub IsOutside : FileMetaData → Type 0
  IsOutside f =
      (user.compare smallest (extract_user_key f.largest) ≡ Ordering.gt)
      ⊎ (user.compare largest (extract_user_key f.smallest) ≡ Ordering.lt)

  abbrev pub IsClear : ℕ → Type 0
  IsClear level = All IsOutside (files level)

  -- Why the loop goes no deeper than a level.
  abbrev pub Stops : ℕ → ℕ → Type 0
  Stops deepest to = (to ≡ deepest) ⊎ (¬ IsClear (to + 1)) ⊎ (too_many_grandparents to ≡ some true)

  IsOutside-of-misses :
      (f : FileMetaData)
      → (after_file user (some smallest) f || before_file user (some largest) f) ≡ true
      → IsOutside f
  unfolding after_file before_file
  IsOutside-of-misses f h =
      elim (Bool-cases (is_gt (user.compare smallest (extract_user_key f.largest)))) [
        | inl after ↦ inl (gt_of-is_gt _ after)
        | inr not_after ↦
            let before : is_lt (user.compare largest (extract_user_key f.smallest)) ≡ true =
              rw not_after at h in
            inr (lt_of-is_lt _ before)
      ]

  misses-of-IsOutside :
      (f : FileMetaData)
      → IsOutside f
      → (after_file user (some smallest) f || before_file user (some largest) f) ≡ true
  unfolding after_file before_file
  misses-of-IsOutside f (inl after) = rw after refl
  misses-of-IsOutside f (inr before) = rw before (ground arith)

  any_overlap-clear :
      (fs : List FileMetaData)
      → (any_overlap user (some smallest) (some largest) fs ≡ false) ↔ All IsOutside fs
  unfolding any_overlap
  any_overlap-clear [] = (λ h. tt, λ h. refl)
  any_overlap-clear (f ∷ fs) =
      let (there, back) = any_overlap-clear fs in
      elim (Bool-cases (after_file user (some smallest) f || before_file user (some largest) f)) [
        | inl misses ↦ rw misses (λ h. (IsOutside-of-misses f misses, there h), λ all. back all.1)
        | inr meets ↦ rw meets (
          λ h. absurd (let no_way : ⊥ = cc in no_way),
          λ all. let wrong = misses-of-IsOutside f all.0 in absurd (let no_way : ⊥ = cc in no_way),
        )
      ]

  module _ (lawful : IsComparator user)
      (disjoint : (level : ℕ) → 0 < level → AreDisjoint user (files level))
      (small : (level : ℕ) → length (files level) < 2 ^ 31) where
    overlap_in_level-walk :
        (level : ℕ)
        → overlap_in_level user files level (some smallest) (some largest)
          ≡ any_overlap user (some smallest) (some largest) (files level)
    unfolding overlap_in_level
    overlap_in_level-walk zero = unfold some_file_overlaps_range in refl
    overlap_in_level-walk (suc level) =
        let deep : ltb 0 (suc level) ≡ true = ground arith in
        rw deep (
          let walk : some_file_overlaps_range user false (files (suc level)) (some smallest)
                (some largest)
              ≡ any_overlap user (some smallest) (some largest) (files (suc level)) =
            unfold some_file_overlaps_range in refl in
          some_file_overlaps_range-sorted user lawful (files (suc level))
            (disjoint (suc level) (omega arith)) (small (suc level)) (some smallest) (some largest)
          ∙ walk)

    IsClear-of-none :
        (level : ℕ)
        → overlap_in_level user files level (some smallest) (some largest) ≡ false
        → IsClear level
    IsClear-of-none level h =
        (any_overlap-clear (files level)).0 (sym (overlap_in_level-walk level) ∙ h)

    not-IsClear_of-some :
        (level : ℕ)
        → overlap_in_level user files level (some smallest) (some largest) ≡ true
        → ¬ IsClear level
    not-IsClear_of-some level h clear =
        let none_of : overlap_in_level user files level (some smallest) (some largest) ≡ false =
          overlap_in_level-walk level ∙ (any_overlap-clear (files level)).1 clear in
        cc

    too_many_grandparents-some : (level : ℕ) → (b : Bool) × (too_many_grandparents level ≡ some b)
    unfolding too_many_grandparents
    too_many_grandparents-some level =
        let (r, found, gathered) =
          get_overlapping_inputs-Gathered user lawful files (level + 2)
            (some (earliest_key smallest)) (some (latest_key largest)) in
        elim (Bool-cases (ltb (level + 2) num_levels)) [
          | inl deep ↦ (
            ltb (max_grand_parent_overlap_bytes max_file_size) (total_file_size r),
            rw (deep, found) refl,
          )
          | inr last ↦ (false, rw last refl)
        ]

    -- The answer is a level that is reached through clear levels only.
    Reached : ℕ → ℕ → Option ℕ → Type 0
    Reached levels from answer =
        (to : ℕ) × (answer ≡ some to)
        × (from ≤ to)
        × (to ≤ from + levels)
        × ((j : ℕ) → from < j → j ≤ to → IsClear j)
        × Stops (from + levels) to

    stays :
        (levels from : ℕ) (answer : Option ℕ)
        → answer ≡ some from
        → Stops (from + suc levels) from
        → Reached (suc levels) from answer
    unfolding Reached
    stays levels from answer h why =
        (from, h, omega arith, omega arith, λ j less more. absurd (omega arith), why)

    from_top : (j to : ℕ) → IsClear 0 → j ≤ to → ((i : ℕ) → 0 < i → i ≤ to → IsClear i) → IsClear j
    from_top zero to free h clear = free
    from_top (suc j) to free h clear = clear (suc j) (omega arith) h

    goes_on :
        (from j to : ℕ)
        → IsClear (from + 1)
        → from < j
        → j ≤ to
        → ((i : ℕ) → from + 1 < i → i ≤ to → IsClear i)
        → IsClear j
    goes_on from j to free h k clear = elim (ℕ_discrete (from + 1) j) [
      | yes same ↦ subst IsClear same free
      | no other ↦ clear j (omega arith) k
    ]

    pick_loop-Reached : (levels from : ℕ) → Reached levels from (pick_loop levels from)
    unfolding pick_loop Reached
    pick_loop-Reached zero from =
        (from, refl, omega arith, omega arith, λ j h k. absurd (omega arith), inl (omega arith))
    pick_loop-Reached (suc levels) from =
        let (b, found) = too_many_grandparents-some from in
        let (to, same, low, high, clear, why) = pick_loop-Reached levels (from + 1) in
        elim (Bool-cases (overlap_in_level user files (from + 1) (some smallest) (some largest))) [
          | inl meets ↦
              stays levels from _ (rw meets refl) (inr (inl (not-IsClear_of-some (from + 1) meets)))
          | inr free ↦ elim (Bool-cases b) [
            | inl many ↦
                stays levels from _ (rw (free, found, many) refl) (inr (inr (found ∙ ap some many)))
            | inr few ↦ (
              to,
              (rw (free, found, few) same),
              omega arith,
              omega arith,
              λ j h k. goes_on from j to (IsClear-of-none (from + 1) free) h k clear,
              stops_from levels from to why,
            )
          ]
        ]
      where
        stops_from :
            (levels from to : ℕ) → Stops (from + 1 + levels) to → Stops (from + suc levels) to
        stops_from levels from to (inl end) = inl (omega arith)
        stops_from levels from to (inr why) = inr why

    -- PickLevelForMemTableOutput gives a level, at most kMaxMemCompactLevel. When it is not level 0, every file of
    -- that level and of the levels above it lies outside the range of the new table. It stops there because that
    -- is kMaxMemCompactLevel, because a file of level 0 or of the next level does not lie outside, or because too
    -- much overlaps in the level behind the next one. The levels from 1 on are disjoint and sorted, and no level
    -- has 2 ^ 31 files.
    pub pick_level_for_mem_table_output-IsClear :
        (to : ℕ) × (pick_level_for_mem_table_output ≡ some to)
        × (to ≤ max_mem_compact_level)
        × ((j : ℕ) → 0 < to → j ≤ to → IsClear j)
        × (((to ≡ 0) × (¬ IsClear 0)) ⊎ Stops max_mem_compact_level to)
    unfolding pick_level_for_mem_table_output Reached
    pick_level_for_mem_table_output-IsClear =
        elim (Bool-cases (overlap_in_level user files 0 (some smallest) (some largest))) [
          | inl meets ↦ (
            0,
            (rw meets refl),
            omega arith,
            λ j h k. absurd (omega arith),
            inl (refl, not-IsClear_of-some 0 meets),
          )
          | inr free ↦
              let (to, same, low, high, clear, why) = pick_loop-Reached max_mem_compact_level 0 in
              (
                to,
                (rw free same),
                omega arith,
                λ j h k. from_top j to (IsClear-of-none 0 free) k clear,
                inr why,
              )
        ]
