-- ===== src/Version/Builder/Apply.antt =====
-- VersionSet::Builder::Apply of Enclave/leveldb/db/version_set.cpp: what an edit leaves in the builder.
use e_lsm_p.Base.{
  ℕ, ◌≡◌, inl, inr, refl, true, false, List, [], ◌∷◌, ◌==◌, All, arith, Bool-cases, ==_iff,
}
use e_lsm_p.Comparator.{Comparator, IsComparator}
use e_lsm_p.VersionEdit.{FileMetaData, VersionEdit}
use e_lsm_p.Version.Builder.{
  Builder, by_smallest_key, contains, erase, insert_file, update, apply, apply_new, apply_deleted,
  apply_pointers, seeks_allowed,
}
use e_lsm_p.Version.Builder.Merge.{IsBefore, IsSorted}
use e_lsm_p.Version.Builder.Sorted.{all_IsBefore_trans, IsBefore-of-less}

erased : (n : ℕ) (ms : List ℕ) → contains n (erase n ms) ≡ false
erased n [] = refl
erased n (m ∷ ms) =
    let rest = erased n ms in
    elim (Bool-cases (n == m)) [ inl same ↦ rw same rest | inr other ↦ rw other (rw other rest) ]

still_absent : (n k : ℕ) (ms : List ℕ) → contains n ms ≡ false → contains n (erase k ms) ≡ false
still_absent n k [] h = h
still_absent n k (m ∷ ms) h =
    let here : (n == m) ≡ false = ground (arith, h) in
    let there : contains n ms ≡ false = ground (arith, h) in
    let rest = still_absent n k ms there in
    elim (Bool-cases (k == m)) [ inl same ↦ rw same rest | inr other ↦ rw other (rw here rest) ]

module _ (user : Comparator) (lawful : IsComparator user) where
  insert-All {κ} :
      (P : FileMetaData → Type κ) (f : FileMetaData) (fs : List FileMetaData)
      → P f
      → All P fs
      → All P (insert_file user f fs)
  unfolding insert_file
  insert-All P f [] h k = (h, tt)
  insert-All P f (g ∷ gs) h k =
      let rest = insert-All P f gs h k.1 in
      elim (Bool-cases (by_smallest_key user f g)) [
        | inl first ↦ rw first (h, k)
        | inr not_first ↦ elim (Bool-cases (by_smallest_key user g f)) [
          | inl behind ↦ rw (not_first, behind) (k.0, rest)
          | inr same ↦ rw (not_first, same) k
        ]
      ]

  insert-IsSorted :
      (f : FileMetaData) (fs : List FileMetaData)
      → IsSorted user fs
      → IsSorted user (insert_file user f fs)
  unfolding insert_file
  insert-IsSorted f [] h = (tt, tt)
  insert-IsSorted f (g ∷ gs) h =
      let rest = insert-IsSorted f gs h.1 in
      elim (Bool-cases (by_smallest_key user f g)) [
        | inl first ↦
            let before = IsBefore-of-less user lawful f g first in
            rw first ((before, all_IsBefore_trans user lawful f g gs before h.0), h)
        | inr not_first ↦ elim (Bool-cases (by_smallest_key user g f)) [
          | inl behind ↦
              rw (not_first, behind) (insert-All (IsBefore user g) f gs not_first h.0, rest)
          | inr same ↦ rw (not_first, same) h
        ]
      ]

  -- The sets of added files are in order.
  abbrev pub AreOrdered : Builder → Type 0
  AreOrdered b = (level : ℕ) → IsSorted user (b.added_files level)

  abbrev added_to : Builder → ℕ → FileMetaData → Builder
  added_to b level new =
      let f = record new { refs = 1; allowed_seeks = seeks_allowed new.file_size } in
      record b {
        deleted_files = update b.deleted_files level (erase f.number (b.deleted_files level));
        added_files = update b.added_files level (insert_file user f (b.added_files level));
      }

  added_to-AreOrdered :
      (b : Builder) (level : ℕ) (new : FileMetaData)
      → AreOrdered b
      → AreOrdered (added_to b level new)
  added_to-AreOrdered b level new h j = elim (Bool-cases (j == level)) [
    | inl same ↦ rw same (
        insert-IsSorted (record new { refs = 1; allowed_seeks = seeks_allowed new.file_size })
          (b.added_files level) (h level))
    | inr other ↦ rw other (h j)
  ]

  added_to-absent :
      (b : Builder) (level : ℕ) (new : FileMetaData) (j n : ℕ)
      → contains n (b.deleted_files j) ≡ false
      → contains n ((added_to b level new).deleted_files j) ≡ false
  added_to-absent b level new j n h = elim (Bool-cases (j == level)) [
    | inl same ↦
        let j_is : j ≡ level = (==_iff j level).0 same in
        rw same (still_absent n new.number (b.deleted_files level) (rw j_is at h))
    | inr other ↦ rw other h
  ]

  apply_new-AreOrdered :
      (news : List (ℕ × FileMetaData)) (b : Builder)
      → AreOrdered b
      → AreOrdered (apply_new user news b)
  unfolding apply_new
  apply_new-AreOrdered [] b h = h
  apply_new-AreOrdered ((level, new) ∷ news) b h =
      apply_new-AreOrdered news (added_to b level new) (added_to-AreOrdered b level new h)

  apply_new-absent :
      (news : List (ℕ × FileMetaData)) (b : Builder) (j n : ℕ)
      → contains n (b.deleted_files j) ≡ false
      → contains n ((apply_new user news b).deleted_files j) ≡ false
  unfolding apply_new
  apply_new-absent [] b j n h = h
  apply_new-absent ((level, new) ∷ news) b j n h =
      apply_new-absent news (added_to b level new) j n (added_to-absent b level new j n h)

  apply_new-kept :
      (news : List (ℕ × FileMetaData)) (b : Builder)
      → All
          (λ (entry : ℕ × FileMetaData).
            contains entry.1.number ((apply_new user news b).deleted_files entry.0) ≡ false)
          news
  unfolding apply_new
  apply_new-kept [] b = tt
  apply_new-kept ((level, new) ∷ news) b = (
    apply_new-absent news (added_to b level new) level new.number (
        let same : (level == level) ≡ true = ground arith in
        rw same (erased new.number (b.deleted_files level))),
    apply_new-kept news (added_to b level new),
  )

  pointers_added :
      (pointers : List (ℕ × List ℕ)) (b : Builder)
      → AreOrdered b
      → AreOrdered (apply_pointers pointers b)
  pointers_added [] b h = h
  pointers_added ((level, key) ∷ rest) b h =
      pointers_added rest (record b { compact_pointer = update b.compact_pointer level key }) h

  deleted_added :
      (deleted : List (ℕ × ℕ)) (b : Builder) → AreOrdered b → AreOrdered (apply_deleted deleted b)
  deleted_added [] b h = h
  deleted_added ((level, number) ∷ rest) b h =
      deleted_added rest
        (record b { deleted_files = update b.deleted_files level (number ∷ b.deleted_files level) })
        h

  -- Apply keeps the sets of added files in order, and none of the files that the edit adds is left among
  -- the deleted files of its level, though the edit, or one before it, may have deleted its number.
  pub apply-AreOrdered :
      (edit : VersionEdit) (b : Builder)
      → AreOrdered b
      → AreOrdered (apply user edit b)
        × All
            (λ (entry : ℕ × FileMetaData).
              contains entry.1.number ((apply user edit b).deleted_files entry.0) ≡ false)
            edit.new_files
  unfolding apply
  apply-AreOrdered edit b h =
      let cleared = apply_deleted edit.deleted_files (apply_pointers edit.compact_pointers b) in
      (
        apply_new-AreOrdered edit.new_files cleared (
            deleted_added edit.deleted_files (apply_pointers edit.compact_pointers b)
              (pointers_added edit.compact_pointers b h)),
        apply_new-kept edit.new_files cleared,
      )
