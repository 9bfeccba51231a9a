-- ===== src/Examples/Versions.antt =====
-- Versions and compactions at concrete files.
use Prim.Native.Nat.{Ordering}
use e_lsm_p.Base.{
  ℕ, zero, suc, ◌+◌, ◌*◌, ◌≤◌, ◌<◌, ◌≡◌, ◌≢◌, refl, Bool, true, false, Option, some, none, List, [],
  ◌∷◌, All, length, ◌^◌, ◌⊎◌, ◌==◌, if◌then◌else◌, count, ◌&&◌, arith,
}
use e_lsm_p.Comparator.{bytewise, slice_compare}
use e_lsm_p.Comparator.Bytewise.{bytewise-IsComparator}
use e_lsm_p.DbFormat.{
  ParsedInternalKey, type_value, append_internal_key, parse_internal_key, internal_compare,
  extract_user_key, extract_tag, internal_key_comparator, max_sequence_number,
}
use e_lsm_p.Comparator.Order.{le_refl}
use e_lsm_p.DbFormat.Order.{internal_key_comparator-IsOrder}
use e_lsm_p.Status.{Status, ok}
use e_lsm_p.VersionEdit.{FileMetaData, VersionEdit, new_file_meta_data, num_levels}
use e_lsm_p.Version.{
  Files, file_at, find_file, get_overlapping_inputs, user_key_of, some_file_overlaps_range,
}
use e_lsm_p.Version.Find.{Finds, find_file-Finds}
use e_lsm_p.Version.Inputs.{get_overlapping_inputs-Gathered}
use e_lsm_p.Version.Ranges.{Gathered}
use e_lsm_p.Version.Pick.{
  IsClear, Stops, max_mem_compact_level, pick_level_for_mem_table_output,
  pick_level_for_mem_table_output-IsClear,
}
use e_lsm_p.Version.Search.{Search, covering_file, search_files, after_read, record_read_sample}
use e_lsm_p.Version.Level.{
  Entry, Holds, Parses, seek_entry, level_entries, Agree, covering_file-Agree,
}
use e_lsm_p.Version.Sample.{sampled, visited, record_read_sample-visited}
use e_lsm_p.Version.Builder.{Builder, contains, save_to, apply}
use e_lsm_p.Version.Builder.Merge.{IsSorted, kept, referred}
use e_lsm_p.Version.Builder.Sorted.{save_to-IsSorted}
use e_lsm_p.Version.Builder.Apply.{AreOrdered, apply-AreOrdered}
use e_lsm_p.VersionSet.{VersionSet, LogAnswers}
use e_lsm_p.VersionSet.Installs.{recorded}
use e_lsm_p.Compaction.{Compaction, new_compaction, new_version_edit, setup_other_inputs}
use e_lsm_p.Compaction.Inputs.{SetUp, setup_other_inputs-SetUp}
use e_lsm_p.Compaction.BaseLevel.{
  AllPassed, Answers, is_base_level_for_key, is_base_level_for_key-Answers,
}
use e_lsm_p.Version.Overlap.{
  AreDisjoint, files-AreSorted, starts_in_order, some_file_overlaps_range-sorted,
}

abbrev key_of : ℕ → List ℕ
key_of letter =
    append_internal_key [] (record { user_key = letter ∷ []; sequence = 5; type = type_value })

-- The files of a level: from a to c, and from e to g.
abbrev file_ac : FileMetaData
file_ac = new_file_meta_data 4 100 (key_of 97) (key_of 99)

abbrev file_eg : FileMetaData
file_eg = new_file_meta_data 5 200 (key_of 101) (key_of 103)

abbrev two_files : List FileMetaData
two_files = file_ac ∷ file_eg ∷ []

lt_ne_gt : Ordering.lt ≢ Ordering.gt
lt_ne_gt h = cc

key_order :
    (internal_compare bytewise (key_of 97) (key_of 99) ≡ Ordering.lt)
    × (internal_compare bytewise (key_of 101) (key_of 103) ≡ Ordering.lt)
    × (internal_compare bytewise (key_of 99) (key_of 101) ≡ Ordering.lt)
unfolding internal_compare append_internal_key extract_user_key slice_compare
key_order = (refl, refl, refl)

key_tags :
    (extract_tag (key_of 99) ≤ max_sequence_number * 256 + 1)
    × (extract_tag (key_of 103) ≤ max_sequence_number * 256 + 1)
unfolding extract_tag append_internal_key
key_tags = (omega arith, omega arith)

two_files-AreDisjoint : AreDisjoint bytewise two_files
two_files-AreDisjoint = record { ordered = ordered; apart = apart; tags = tags }
  where
    ordered :
        (i : ℕ)
        → i < 2
        → internal_compare bytewise (file_at two_files i).smallest (file_at two_files i).largest
          ≢ Ordering.gt
    ordered zero h bad = let less = key_order.0 in cc
    ordered (suc zero) h bad = let less = key_order.1 in cc
    ordered (suc (suc i)) h bad = absurd (omega arith)

    apart :
        (i j : ℕ)
        → i < j
        → j < 2
        → internal_compare bytewise (file_at two_files i).largest (file_at two_files j).smallest
          ≡ Ordering.lt
    apart zero (suc zero) h k = key_order.2
    apart i zero h k = absurd (omega arith)
    apart (suc i) (suc zero) h k = absurd (omega arith)
    apart i (suc (suc j)) h k = absurd (omega arith)

    tags :
        (i : ℕ) → i < 2 → extract_tag (file_at two_files i).largest ≤ max_sequence_number * 256 + 1
    tags zero h = key_tags.0
    tags (suc zero) h = key_tags.1
    tags (suc (suc i)) h = absurd (omega arith)

find_file-Finds_example :
    Finds bytewise two_files (key_of 100) (find_file bytewise two_files (key_of 100))
find_file-Finds_example =
    find_file-Finds bytewise two_files (key_of 100) bytewise-IsComparator
      (files-AreSorted bytewise bytewise-IsComparator two_files two_files-AreDisjoint (omega arith))
      (omega arith)

some_file_overlaps_range-sorted_example :
    some_file_overlaps_range bytewise true two_files (some (98 ∷ [])) (some (100 ∷ []))
    ≡ some_file_overlaps_range bytewise false two_files (some (98 ∷ [])) (some (100 ∷ []))
some_file_overlaps_range-sorted_example =
    some_file_overlaps_range-sorted bytewise bytewise-IsComparator two_files two_files-AreDisjoint
      (omega arith) (some (98 ∷ [])) (some (100 ∷ []))

-- A version with the two files in level 1.
abbrev files : Files
files level = if level == 1 then two_files else []

get_overlapping_inputs-Gathered_example :
    (r : List FileMetaData) × (get_overlapping_inputs bytewise files 1 (some (key_of 98)) none
      ≡ some r)
    × Gathered bytewise (1 == 0) (files 1) (user_key_of (some (key_of 98))) none r
get_overlapping_inputs-Gathered_example =
    get_overlapping_inputs-Gathered bytewise bytewise-IsComparator files 1 (some (key_of 98)) none

no_files-AreDisjoint : AreDisjoint bytewise []
no_files-AreDisjoint = record {
  ordered = λ i h. absurd (omega arith);
  apart = λ i j h k. absurd (omega arith);
  tags = λ i h. absurd (omega arith);
}

levels-AreDisjoint : (level : ℕ) → 0 < level → AreDisjoint bytewise (files level)
levels-AreDisjoint zero h = no_files-AreDisjoint
levels-AreDisjoint (suc zero) h = two_files-AreDisjoint
levels-AreDisjoint (suc (suc level)) h =
    let other : (suc (suc level) == 1) ≡ false = ground arith in rw other no_files-AreDisjoint

levels-are_small : (level : ℕ) → length (files level) < 2 ^ 31
levels-are_small zero = omega arith
levels-are_small (suc zero) = omega arith
levels-are_small (suc (suc level)) =
    let other : (suc (suc level) == 1) ≡ false = ground arith in rw other (omega arith)

pick_level_for_mem_table_output-IsClear_example :
    (to : ℕ) × (pick_level_for_mem_table_output bytewise 1000 files (100 ∷ []) (100 ∷ []) ≡ some to)
    × (to ≤ max_mem_compact_level)
    × ((j : ℕ) → 0 < to → j ≤ to → IsClear bytewise 1000 files (100 ∷ []) (100 ∷ []) j)
    × (((to ≡ 0) × (IsClear bytewise 1000 files (100 ∷ []) (100 ∷ []) 0 → ⊥))
        ⊎ Stops bytewise 1000 files (100 ∷ []) (100 ∷ []) max_mem_compact_level to)
pick_level_for_mem_table_output-IsClear_example =
    pick_level_for_mem_table_output-IsClear bytewise 1000 files (100 ∷ []) (100 ∷ [])
      bytewise-IsComparator levels-AreDisjoint levels-are_small

-- The files hold their first and last keys.
abbrev entries : FileMetaData → List Entry
entries f = (f.smallest, 1 ∷ []) ∷ (f.largest, 2 ∷ []) ∷ []

abbrev reads : ℕ → ℕ → Status × Option Entry
reads number size =
    (ok, seek_entry bytewise (key_of 99) (entries (if number == 4 then file_ac else file_eg)))

keys-Parses :
    Parses bytewise (key_of 97)
    × Parses bytewise (key_of 99)
    × Parses bytewise (key_of 101)
    × Parses bytewise (key_of 103)
unfolding parse_internal_key append_internal_key extract_user_key
keys-Parses = ((_, refl, refl), (_, refl, refl), (_, refl, refl), (_, refl, refl))

same_order : (k : List ℕ) → internal_compare bytewise k k ≢ Ordering.gt
same_order k =
    le_refl (internal_key_comparator bytewise)
      (internal_key_comparator-IsOrder bytewise bytewise-IsComparator.order) k

ac-Holds : Holds bytewise file_ac (entries file_ac)
ac-Holds = record {
  low = (same_order (key_of 97), ((λ bad. let less = key_order.0 in cc), tt));
  high = ((λ bad. let less = key_order.0 in cc), (same_order (key_of 99), tt));
  parses = (keys-Parses.0, (keys-Parses.1, tt));
  before = (key_of 97, 1 ∷ []) ∷ [];
  value = 2 ∷ [];
  behind = [];
  last = refl;
}

eg-Holds : Holds bytewise file_eg (entries file_eg)
eg-Holds = record {
  low = (same_order (key_of 101), ((λ bad. let less = key_order.1 in cc), tt));
  high = ((λ bad. let less = key_order.1 in cc), (same_order (key_of 103), tt));
  parses = (keys-Parses.2, (keys-Parses.3, tt));
  before = (key_of 101, 1 ∷ []) ∷ [];
  value = 2 ∷ [];
  behind = [];
  last = refl;
}

files-Holds : (i : ℕ) → i < 2 → Holds bytewise (file_at two_files i) (entries (file_at two_files i))
files-Holds zero h = ac-Holds
files-Holds (suc zero) h = eg-Holds
files-Holds (suc (suc i)) h = absurd (omega arith)

files-reads :
    (i : ℕ)
    → i < 2
    → reads (file_at two_files i).number (file_at two_files i).file_size
      ≡ (ok, seek_entry bytewise (key_of 99) (entries (file_at two_files i)))
files-reads zero h = refl
files-reads (suc zero) h = refl
files-reads (suc (suc i)) h = absurd (omega arith)

abbrev begun : Search
begun = record { seek = none; last_file_read = none; value = []; decided = none }

covering_file-Agree_example :
    Agree
      (search_files bytewise reads
        (99 ∷ [])
        1
        (covering_file bytewise files (99 ∷ []) (key_of 99) two_files)
        begun)
      (after_read bytewise
        (99 ∷ [])
        (ok, seek_entry bytewise (key_of 99) (level_entries bytewise entries two_files))
        begun)
covering_file-Agree_example =
    covering_file-Agree bytewise bytewise-IsComparator reads (99 ∷ []) entries (key_of 99) files 1
      two_files-AreDisjoint (omega arith) files-Holds files-reads begun refl

abbrev letter_a : ParsedInternalKey
letter_a = record { user_key = 97 ∷ []; sequence = 5; type = type_value }

a_parses : parse_internal_key (key_of 97) ≡ some letter_a
unfolding parse_internal_key append_internal_key
a_parses = refl

record_read_sample-visited_example :
    record_read_sample bytewise files none (key_of 97)
    ≡ sampled none (visited bytewise files (97 ∷ []) (key_of 97) num_levels 0)
record_read_sample-visited_example =
    record_read_sample-visited bytewise files none (key_of 97) letter_a a_parses

-- A builder that deletes the first file and adds it again in order.
abbrev builder : Builder
builder = record {
  deleted_files = λ level. 4 ∷ [];
  added_files = λ level. file_eg ∷ [];
  compact_pointer = λ level. [];
}

save_to-IsSorted_example :
    IsSorted bytewise (save_to bytewise builder (λ level. file_ac ∷ []) 1)
    × ((p : FileMetaData → Bool)
        → let q = λ (f : FileMetaData). kept (4 ∷ []) f && p (referred f) in
          count p (save_to bytewise builder (λ level. file_ac ∷ []) 1)
          ≡ count q (file_ac ∷ []) + count q (file_eg ∷ []))
save_to-IsSorted_example =
    save_to-IsSorted bytewise builder (λ level. file_ac ∷ []) 1 bytewise-IsComparator (tt, tt)
      (tt, tt)

abbrev edit : VersionEdit
edit = record new_version_edit { deleted_files = (1, 4) ∷ []; new_files = (1, file_ac) ∷ [] }

apply-AreOrdered_example :
    AreOrdered bytewise bytewise-IsComparator (apply bytewise edit builder)
    × All
        (λ (entry : ℕ × FileMetaData).
          contains entry.1.number ((apply bytewise edit builder).deleted_files entry.0) ≡ false)
        edit.new_files
apply-AreOrdered_example =
    apply-AreOrdered bytewise bytewise-IsComparator edit builder (λ level. (tt, tt))

abbrev compaction : Compaction
compaction = record (new_compaction 1000 0) { inputs0 = file_ac ∷ [] }

setup_other_inputs-SetUp_example :
    (r : Compaction × List ℕ) × (setup_other_inputs bytewise 1000 files compaction ≡ some r)
    × SetUp bytewise 1000 files compaction.inputs0 r.0 r.1
    × (r.0.level ≡ compaction.level)
setup_other_inputs-SetUp_example =
    setup_other_inputs-SetUp bytewise 1000 files bytewise-IsComparator compaction (omega arith)

is_base_level_for_key-Answers_example :
    Answers bytewise
      (98 ∷ [])
      (λ level. two_files)
      (0 + 2)
      num_levels
      (is_base_level_for_key bytewise (98 ∷ []) (λ level. two_files) 0 (λ level. 0))
    × ((key' : List ℕ)
        → bytewise.compare (98 ∷ []) key' ≢ Ordering.gt
        → AllPassed bytewise key'
            (λ level. two_files)
            (is_base_level_for_key bytewise (98 ∷ []) (λ level. two_files) 0 (λ level. 0)).1)
is_base_level_for_key-Answers_example =
    is_base_level_for_key-Answers bytewise (98 ∷ []) (λ level. two_files) 0 (λ level. 0)
      bytewise-IsComparator
      (λ level.
        starts_in_order bytewise bytewise-IsComparator two_files two_files-AreDisjoint
          (omega arith))
      (λ level i h. absurd (omega arith))

-- A set whose current version has a file in level 1, and calls of which the last fails.
abbrev version_set : VersionSet
version_set = record {
  current = λ level. if level == 1 then file_eg ∷ [] else [];
  next_file_number = 6;
  last_sequence = 5;
  log_number = 3;
  prev_log_number = 0;
  compact_pointer = λ level. [];
  has_descriptor_log = true;
}

abbrev not_synced : LogAnswers
not_synced = record {
  created = ok;
  snapshot = ok;
  recorded = ok;
  synced = some (1 ∷ []);
  renamed = ok;
}
