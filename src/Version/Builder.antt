-- ===== src/Version/Builder.antt =====
-- VersionSet::Builder of Enclave/leveldb/db/version_set.cpp: edits gathered over a base version, and the files of the
-- version that they make. The Version itself is its files; the asserted order of the levels is not tested.
pub mod Merge
pub mod Sorted
pub mod Apply
use e_lsm_p.Base.{
  ℕ, ◌+◌, ◌*◌, ◌/◌, ◌%◌, ◌^◌, Bool, true, false, not, ◌||◌, List, [], ◌∷◌, ◌++◌, ltb, leb, ◌==◌,
  if◌then◌else◌, filter,
}
use e_lsm_p.Comparator.{Comparator}
use e_lsm_p.DbFormat.{internal_compare, is_lt}
use e_lsm_p.VersionEdit.{FileMetaData, VersionEdit}
use e_lsm_p.Version.{Files, is_gt}

-- BySmallestKey: ties are broken by file number.
unfoldable pub by_smallest_key : Comparator → FileMetaData → FileMetaData → Bool
by_smallest_key user f1 f2 =
    let r = internal_compare user f1.smallest f2.smallest in
    if is_lt r then true else if is_gt r then false else ltb f1.number f2.number

-- std::set<uint64_t>, as the list of its elements.
abbrev pub contains : ℕ → List ℕ → Bool
contains n [] = false
contains n (m ∷ ms) = (n == m) || contains n ms

abbrev pub erase : ℕ → List ℕ → List ℕ
erase n ms = filter (λ m. not (n == m)) ms

module _ (user : Comparator) where
  -- FileSet::insert, which leaves the set alone when an equivalent file is there.
  unfoldable pub insert_file : FileMetaData → List FileMetaData → List FileMetaData
  unfolding by_smallest_key
  insert_file f [] = f ∷ []
  insert_file f (g ∷ gs) =
      if by_smallest_key user f g
      then f ∷ (g ∷ gs)
      else if by_smallest_key user g f
      then g ∷ insert_file f gs
      else g ∷ gs

-- LevelState, for each level, and compact_pointer_ of the set of versions.
pub record Builder : Type 0 where
  pub deleted_files : ℕ → List ℕ
  pub added_files : ℕ → List FileMetaData
  pub compact_pointer : ℕ → List ℕ

abbrev pub update {ℓ} : {A : Type ℓ} → (ℕ → A) → ℕ → A → ℕ → A
update f level v j = if j == level then v else f j

abbrev pub new_builder : (ℕ → List ℕ) → Builder
new_builder compact_pointer = record {
  deleted_files = λ level. [];
  added_files = λ level. [];
  compact_pointer = compact_pointer;
}

-- One seek for every 16 KB, and 100 at least; the quotient goes through an int.
abbrev pub seeks_allowed : ℕ → ℕ
seeks_allowed file_size =
    let seeks = file_size / 16384 % 2 ^ 32 in
    if ltb seeks 100 || leb (2 ^ 31) seeks then 100 else seeks

abbrev pub apply_pointers : List (ℕ × List ℕ) → Builder → Builder
apply_pointers [] b = b
apply_pointers ((level, key) ∷ rest) b =
    apply_pointers rest (record b { compact_pointer = update b.compact_pointer level key })

abbrev pub apply_deleted : List (ℕ × ℕ) → Builder → Builder
apply_deleted [] b = b
apply_deleted ((level, number) ∷ rest) b =
    apply_deleted rest
      (record b { deleted_files = update b.deleted_files level (number ∷ b.deleted_files level) })

module _ (user : Comparator) where
  unfoldable pub apply_new : List (ℕ × FileMetaData) → Builder → Builder
  unfolding insert_file
  apply_new [] b = b
  apply_new ((level, new) ∷ rest) b =
      let f = record new { refs = 1; allowed_seeks = seeks_allowed new.file_size } in
      apply_new rest (record b {
        deleted_files = update b.deleted_files level (erase f.number (b.deleted_files level));
        added_files = update b.added_files level (insert_file user f (b.added_files level));
      })

  unfoldable pub apply : VersionEdit → Builder → Builder
  unfolding apply_new
  apply edit b =
      apply_new edit.new_files
        (apply_deleted edit.deleted_files (apply_pointers edit.compact_pointers b))

  -- MaybeAddFile: one more reference to a file that is not deleted.
  abbrev pub maybe_add_file : List ℕ → List FileMetaData → FileMetaData → List FileMetaData
  maybe_add_file deleted files f =
      if contains f.number deleted then files else files ++ (record f { refs = f.refs + 1 } ∷ [])

  abbrev pub maybe_add_files : List ℕ → List FileMetaData → List FileMetaData → List FileMetaData
  maybe_add_files deleted files [] = files
  maybe_add_files deleted files (f ∷ fs) =
      maybe_add_files deleted (maybe_add_file deleted files f) fs

  -- std::upper_bound, as it is specified for sorted files: those that `added` does not come before, and
  -- the others.
  abbrev pub upper_bound : FileMetaData → List FileMetaData → List FileMetaData × List FileMetaData
  upper_bound added [] = ([], [])
  upper_bound added (f ∷ fs) =
      let (before, rest) = upper_bound added fs in
      if by_smallest_key user added f then ([], f ∷ fs) else (f ∷ before, rest)

  -- The loop of SaveTo over the added files of a level, on `v->files_[level]`.
  unfoldable pub save_loop :
      List ℕ → List FileMetaData → List FileMetaData → List FileMetaData → List FileMetaData
  unfolding by_smallest_key
  save_loop deleted [] base files = maybe_add_files deleted files base
  save_loop deleted (a ∷ added) base files =
      let (before, rest) = upper_bound a base in
      save_loop deleted added rest (maybe_add_file deleted (maybe_add_files deleted files before) a)

  unfoldable pub save_to : Builder → Files → Files
  unfolding save_loop
  save_to b base level = save_loop (b.deleted_files level) (b.added_files level) (base level) []
