-- ===== src/Compaction.antt =====
-- Enclave/leveldb/db/version_set.cpp, the class Compaction and its set up by VersionSet: the files that are merged,
-- and the questions that the merge asks. Where GetOverlappingInputs may run out of restarts, `none` says so. The int
-- products of options->max_file_size do not overflow for sizes below 2 ^ 31 / 25; others are outside the model.
pub mod Inputs
pub mod BaseLevel
pub mod Grandparents
use e_lsm_p.Base.{
  ℕ, zero, suc, ◌+◌, ◌-◌, ◌*◌, Bool, true, false, not, ◌&&◌, Option, none, some, List, [], ◌∷◌,
  ◌++◌, length, take, ltb, leb, ◌==◌, if◌then◌else◌, ◌>>=◌,
}
use e_lsm_p.Comparator.{Comparator}
use e_lsm_p.DbFormat.{internal_compare, is_lt, extract_user_key}
use e_lsm_p.VersionEdit.{FileMetaData, VersionEdit, num_levels, set_compact_pointer, delete_file}
use e_lsm_p.Version.{Files, is_gt, file_at, total_file_size, get_overlapping_inputs}

-- VersionEdit(), which clears itself.
abbrev pub new_version_edit : VersionEdit
new_version_edit = record {
  comparator = [];
  log_number = 0;
  prev_log_number = 0;
  next_file_number = 0;
  last_sequence = 0;
  has_comparator = false;
  has_log_number = false;
  has_prev_log_number = false;
  has_next_file_number = false;
  has_last_sequence = false;
  compact_pointers = [];
  deleted_files = [];
  new_files = [];
}

pub record Compaction : Type 0 where
  pub level : ℕ
  pub max_output_file_size : ℕ
  pub edit : VersionEdit
  pub inputs0 : List FileMetaData
  pub inputs1 : List FileMetaData
  pub grandparents : List FileMetaData
  pub grandparent_index : ℕ
  pub seen_key : Bool
  pub overlapped_bytes : ℕ
  pub level_ptrs : ℕ → ℕ

unfoldable pub new_compaction : ℕ → ℕ → Compaction
new_compaction max_file_size level = record {
  level = level;
  max_output_file_size = max_file_size;
  edit = new_version_edit;
  inputs0 = [];
  inputs1 = [];
  grandparents = [];
  grandparent_index = 0;
  seen_key = false;
  overlapped_bytes = 0;
  level_ptrs = λ level. 0;
}

abbrev pub expanded_compaction_byte_size_limit : ℕ → ℕ
expanded_compaction_byte_size_limit max_file_size = 25 * max_file_size

-- The inputs of both levels, grown if that takes in no more files of the next level, with the last key of
-- the first ones.
abbrev pub Grown : Type 0
Grown = List FileMetaData × List FileMetaData × List ℕ

abbrev pub with_inputs : Compaction → Grown → List FileMetaData → Compaction × List ℕ
with_inputs c (inputs0, inputs1, largest) grandparents = (
  record c {
    inputs0 = inputs0;
    inputs1 = inputs1;
    grandparents = grandparents;
    edit = set_compact_pointer c.level largest c.edit;
  },
  largest,
)

-- The loop of CompactRange that cuts the inputs off where their sizes reach the limit.
unfoldable pub cut_inputs : ℕ → ℕ → List FileMetaData → List FileMetaData
cut_inputs limit total [] = []
cut_inputs limit total (f ∷ fs) =
    let rest = cut_inputs limit (total + f.file_size) fs in
    if leb limit (total + f.file_size) then f ∷ [] else f ∷ rest

-- Wrap-around to the beginning of the key space.
abbrev pub or_first : List FileMetaData → List FileMetaData → List FileMetaData
or_first [] fs = file_at fs 0 ∷ []
or_first (f ∷ picked) fs = f ∷ picked

module _ (user : Comparator) where
  -- GetRange; the keys are cleared first, and stay so for no inputs, which the assertion rules out.
  abbrev pub smallest_loop : List ℕ → List FileMetaData → List ℕ
  smallest_loop smallest [] = smallest
  smallest_loop smallest (f ∷ fs) =
      smallest_loop
        (if is_lt (internal_compare user f.smallest smallest) then f.smallest else smallest) fs

  abbrev pub largest_loop : List ℕ → List FileMetaData → List ℕ
  largest_loop largest [] = largest
  largest_loop largest (f ∷ fs) =
      largest_loop (if is_gt (internal_compare user f.largest largest) then f.largest else largest)
        fs

  abbrev pub get_range : List FileMetaData → List ℕ × List ℕ
  get_range [] = ([], [])
  get_range (f ∷ fs) = (smallest_loop f.smallest fs, largest_loop f.largest fs)

  abbrev pub get_range2 : List FileMetaData → List FileMetaData → List ℕ × List ℕ
  get_range2 inputs1 inputs2 = get_range (inputs1 ++ inputs2)

  abbrev pub if_as_many : Grown → List FileMetaData → List FileMetaData → Grown
  if_as_many (inputs0, inputs1, largest) expanded0 expanded1 =
      if length expanded1 == length inputs1
      then (expanded0, expanded1, (get_range expanded0).1)
      else (inputs0, inputs1, largest)

  -- The loop of PickCompaction for the first file behind compact_pointer_, which is `[]` while it is empty.
  abbrev pub is_behind : List ℕ → FileMetaData → Bool
  is_behind [] f = true
  is_behind (b ∷ bs) f = is_gt (internal_compare user f.largest (b ∷ bs))

  unfoldable pub first_behind : List ℕ → List FileMetaData → List FileMetaData
  first_behind compact_pointer [] = []
  first_behind compact_pointer (f ∷ fs) =
      let rest = first_behind compact_pointer fs in
      if is_behind compact_pointer f then f ∷ [] else rest

  module _ (max_file_size : ℕ) (files : Files) where
    abbrev pub overlapping : ℕ → List ℕ × List ℕ → Option (List FileMetaData)
    overlapping level (smallest, largest) =
        get_overlapping_inputs user files level (some smallest) (some largest)

    abbrev pub if_small : ℕ → Grown → List FileMetaData → Option Grown
    if_small level (inputs0, inputs1, largest) expanded0 =
        let limit = expanded_compaction_byte_size_limit max_file_size in
        let grown =
          overlapping (level + 1) (get_range expanded0)
          >>= (λ expanded1. some (if_as_many (inputs0, inputs1, largest) expanded0 expanded1)) in
        if ltb (length inputs0) (length expanded0)
          && ltb (total_file_size inputs1 + total_file_size expanded0) limit
        then grown
        else some (inputs0, inputs1, largest)

    unfoldable pub grow : ℕ → Grown → Option Grown
    unfolding get_overlapping_inputs total_file_size
    grow level (inputs0, inputs1, largest) =
        let tried =
          overlapping level (get_range2 inputs0 inputs1)
          >>= (λ expanded0. if_small level (inputs0, inputs1, largest) expanded0) in
        if length inputs1 == 0 then some (inputs0, inputs1, largest) else tried

    unfoldable pub find_grandparents :
        Compaction → List FileMetaData → List FileMetaData → Option (List FileMetaData)
    unfolding get_overlapping_inputs
    find_grandparents c inputs0 inputs1 =
        if ltb (c.level + 2) num_levels
        then overlapping (c.level + 2) (get_range2 inputs0 inputs1)
        else some c.grandparents

    abbrev pub after_grow : Compaction → Grown → Option (Compaction × List ℕ)
    after_grow c (inputs0, inputs1, largest) =
        find_grandparents c inputs0 inputs1
        >>= (λ gs. some (with_inputs c (inputs0, inputs1, largest) gs))

    -- SetupOtherInputs: the compaction, and the new compact_pointer_ of its level.
    unfoldable pub setup_other_inputs : Compaction → Option (Compaction × List ℕ)
    unfolding grow find_grandparents set_compact_pointer
    setup_other_inputs c =
        overlapping (c.level + 1) (get_range c.inputs0)
        >>= (λ inputs1. grow c.level (c.inputs0, inputs1, (get_range c.inputs0).1))
        >>= (λ grown. after_grow c grown)

    abbrev pub compact_inputs : ℕ → List FileMetaData → Option (Option (Compaction × List ℕ))
    compact_inputs level inputs =
        let cut = if ltb 0 level then cut_inputs max_file_size 0 inputs else inputs in
        let set_up =
          setup_other_inputs (record (new_compaction max_file_size level) { inputs0 = cut }) in
        if length inputs == 0 then some none else set_up >>= (λ c. some (some c))

    -- CompactRange; the inner `none` is NULL.
    unfoldable pub compact_range :
        ℕ → Option (List ℕ) → Option (List ℕ) → Option (Option (Compaction × List ℕ))
    unfolding setup_other_inputs cut_inputs new_compaction
    compact_range level begin end =
        get_overlapping_inputs user files level begin end
        >>= (λ inputs. compact_inputs level inputs)

    abbrev pub set_up_picked : ℕ → List FileMetaData → Option (Option (Compaction × List ℕ))
    set_up_picked level inputs0 =
        setup_other_inputs (record (new_compaction max_file_size level) { inputs0 = inputs0 })
        >>= (λ c. some (some c))

    abbrev pub setup_picked : ℕ → List FileMetaData → Option (Option (Compaction × List ℕ))
    setup_picked level inputs0 =
        let all = overlapping 0 (get_range inputs0) >>= (λ inputs. set_up_picked 0 inputs) in
        let as_is = set_up_picked level inputs0 in if level == 0 then all else as_is

    -- PickCompaction. The doubles stay outside the model: `size_level` is compaction_level_ where the score is 1 or
    -- more, and `seek` is file_to_compact_ with its level.
    unfoldable pub pick_compaction :
        (ℕ → List ℕ) → Option ℕ → Option (ℕ × FileMetaData) → Option (Option (Compaction × List ℕ))
    unfolding setup_other_inputs first_behind new_compaction get_overlapping_inputs
    pick_compaction compact_pointer (some level) seek =
        setup_picked level
          (or_first (first_behind (compact_pointer level) (files level)) (files level))
    pick_compaction compact_pointer none (some (level, f)) = setup_picked level (f ∷ [])
    pick_compaction compact_pointer none none = some none
