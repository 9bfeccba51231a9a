-- ===== src/Version.antt =====
-- Enclave/leveldb/db/version_set.cpp, the class Version: the files of a database by level, the search
-- for a key in them, and the choice of files that overlap a range.
pub mod Find
pub mod Overlap
pub mod Ranges
pub mod Inputs
pub mod Pick
pub mod Search
pub mod Level
pub mod Sample
pub mod Builder
use Prim.Native.Nat.{Ordering}
use e_lsm_p.Base.{
  ℕ, zero, suc, ◌+◌, ◌-◌, ◌*◌, ◌/◌, ◌%◌, ◌^◌, Bool, true, false, not, ◌&&◌, ◌||◌, Option, none,
  some, List, [], ◌∷◌, ◌++◌, length, get_or, ltb, leb, ◌==◌, if◌then◌else◌,
}
use e_lsm_p.Comparator.{Comparator}
use e_lsm_p.DbFormat.{
  append_internal_key, extract_user_key, internal_compare, is_lt, max_sequence_number,
  value_type_for_seek,
}
use e_lsm_p.VersionEdit.{FileMetaData, new_file_meta_data}

-- A Version is its files, level by level.
abbrev pub Files : Type 0
Files = ℕ → List FileMetaData

abbrev pub is_gt : Ordering → Bool
is_gt Ordering.lt = false
is_gt Ordering.eq = false
is_gt Ordering.gt = true

-- `files[i]`, which the code asks for inside the vector only.
abbrev pub file_at : List FileMetaData → ℕ → FileMetaData
file_at files i = get_or files i (new_file_meta_data 0 0 [] [])

-- TotalFileSize, on int64_t.
unfoldable pub total_file_size : List FileMetaData → ℕ
total_file_size [] = 0
total_file_size (f ∷ files) = f.file_size + total_file_size files

-- InternalKey(user_key, kMaxSequenceNumber, kValueTypeForSeek).
abbrev pub earliest_key : List ℕ → List ℕ
earliest_key u =
    append_internal_key []
      (record { user_key = u; sequence = max_sequence_number; type = value_type_for_seek })

-- `begin->user_key()` where there is one.
abbrev pub user_key_of : Option (List ℕ) → Option (List ℕ)
user_key_of none = none
user_key_of (some k) = some (extract_user_key k)

module _ (user : Comparator) where
  -- The loop of FindFile, with the rounds that are left; `none` is out of rounds.
  unfoldable pub find_loop : List FileMetaData → List ℕ → ℕ → ℕ → ℕ → Option ℕ
  find_loop files key zero left right = if ltb left right then none else some right
  find_loop files key (suc rounds) left right =
      let mid = (left + right) % 2 ^ 32 / 2 in
      let upper = find_loop files key rounds (mid + 1) right in
      let lower = find_loop files key rounds left mid in
      if ltb left right
      then (if is_lt (internal_compare user (file_at files mid).largest key) then upper else lower)
      else some right

  -- Each round makes the range shorter, so there are as many rounds as files.
  unfoldable pub find_file : List FileMetaData → List ℕ → Option ℕ
  unfolding find_loop
  find_file files key = find_loop files key (length files) 0 (length files % 2 ^ 32)

  -- The index that the callers of FindFile get. Version.Find shows that the rounds are enough for the files
  -- of a level, so that there is one.
  abbrev pub index_or_end : List FileMetaData → Option ℕ → ℕ
  index_or_end files none = length files
  index_or_end files (some index) = index

  unfoldable pub file_index : List FileMetaData → List ℕ → ℕ
  unfolding find_file
  file_index files key = index_or_end files (find_file files key)

  -- `none` stands for NULL.
  unfoldable pub after_file : Option (List ℕ) → FileMetaData → Bool
  after_file none f = false
  after_file (some u) f = is_gt (user.compare u (extract_user_key f.largest))

  unfoldable pub before_file : Option (List ℕ) → FileMetaData → Bool
  before_file none f = false
  before_file (some u) f = is_lt (user.compare u (extract_user_key f.smallest))

  unfoldable pub any_overlap : Option (List ℕ) → Option (List ℕ) → List FileMetaData → Bool
  unfolding after_file before_file
  any_overlap smallest largest [] = false
  any_overlap smallest largest (f ∷ files) =
      let rest = any_overlap smallest largest files in
      if after_file smallest f || before_file largest f then rest else true

  abbrev pub start_index : List FileMetaData → Option (List ℕ) → ℕ
  start_index files none = 0
  start_index files (some u) = file_index files (earliest_key u)

  unfoldable pub some_file_overlaps_range :
      Bool → List FileMetaData → Option (List ℕ) → Option (List ℕ) → Bool
  unfolding any_overlap file_index
  some_file_overlaps_range disjoint_sorted_files files smallest largest =
      let index = start_index files smallest in
      if not disjoint_sorted_files
      then any_overlap smallest largest files
      else if leb (length files) index
      then false
      else not (before_file largest (file_at files index))

  unfoldable pub overlap_in_level : Files → ℕ → Option (List ℕ) → Option (List ℕ) → Bool
  unfolding some_file_overlaps_range
  overlap_in_level files level smallest largest =
      some_file_overlaps_range (ltb 0 level) (files level) smallest largest

  -- The range of GetOverlappingInputs, its two ends open where they are NULL.
  abbrev pub is_before : Option (List ℕ) → FileMetaData → Bool
  is_before none f = false
  is_before (some u) f = is_lt (user.compare (extract_user_key f.largest) u)

  abbrev pub is_after : Option (List ℕ) → FileMetaData → Bool
  is_after none f = false
  is_after (some u) f = is_gt (user.compare (extract_user_key f.smallest) u)

  abbrev pub starts_earlier : Option (List ℕ) → FileMetaData → Bool
  starts_earlier none f = false
  starts_earlier (some u) f = is_lt (user.compare (extract_user_key f.smallest) u)

  abbrev pub ends_later : Option (List ℕ) → FileMetaData → Bool
  ends_later none f = false
  ends_later (some u) f = is_gt (user.compare (extract_user_key f.largest) u)

  -- The loop of GetOverlappingInputs: `all` is the level, `rest` what is still to be looked at. A file
  -- of level 0 that reaches beyond the range widens it and starts the loop again, which takes one of
  -- the restarts that are left; `none` is out of restarts.
  unfoldable pub inputs_loop :
      Bool
      → List FileMetaData
      → ℕ
      → List FileMetaData
      → Option (List ℕ)
      → Option (List ℕ)
      → List FileMetaData
      → Option (List FileMetaData)
  inputs_loop level0 all restarts [] begin end inputs = some inputs
  inputs_loop level0 all zero (f ∷ rest) begin end inputs =
      let taken = inputs_loop level0 all zero rest begin end (inputs ++ (f ∷ [])) in
      let skipped = inputs_loop level0 all zero rest begin end inputs in
      if is_before begin f || is_after end f
      then skipped
      else if level0 && (starts_earlier begin f || ends_later end f)
      then none
      else taken
  inputs_loop level0 all (suc restarts) (f ∷ rest) begin end inputs =
      let taken = inputs_loop level0 all (suc restarts) rest begin end (inputs ++ (f ∷ [])) in
      let skipped = inputs_loop level0 all (suc restarts) rest begin end inputs in
      let earlier =
        inputs_loop level0 all restarts all (some (extract_user_key f.smallest)) end [] in
      let later =
        inputs_loop level0 all restarts all begin (some (extract_user_key f.largest)) [] in
      if is_before begin f || is_after end f
      then skipped
      else if level0 && starts_earlier begin f
      then earlier
      else if level0 && ends_later end f
      then later
      else taken

  -- Every restart moves one end of the range to the end of a file, so two for each file are enough.
  unfoldable pub get_overlapping_inputs :
      Files → ℕ → Option (List ℕ) → Option (List ℕ) → Option (List FileMetaData)
  unfolding inputs_loop
  get_overlapping_inputs files level begin end =
      inputs_loop (level == 0) (files level) (2 * length (files level)) (files level)
        (user_key_of begin) (user_key_of end) []
