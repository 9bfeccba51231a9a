-- ===== src/VersionEdit.antt =====
-- Enclave/leveldb/db/version_edit.h and version_edit.cpp: a change of the set of files, and its form
-- in the MANIFEST. An InternalKey is its bytes; `rh`, the root of a file's Merkle tree, is `none`
-- while nothing has been written to the array.
pub mod Fields
pub mod Decode
pub mod Written
pub mod Apply
pub mod RoundTrip
use e_lsm_p.Base.{
  ℕ, zero, suc, ◌+◌, ◌%◌, ◌^◌, Bool, true, false, Option, none, some, List, [], ◌∷◌, ◌++◌, length,
  ltb, ◌==◌, ◌&&◌, ◌||◌, if◌then◌else◌, ◌>>=◌,
}
use e_lsm_p.Coding.Varint.{
  put_varint32, put_varint64, put_length_prefixed_slice, get_varint32, get_varint64,
  get_length_prefixed_slice,
}
use e_lsm_p.Status.{Status, ok, corruption, bytes}

-- config::kNumLevels
abbrev pub num_levels : ℕ
num_levels = 7

pub record FileMetaData : Type 0 where
  pub refs : ℕ
  pub allowed_seeks : ℕ
  pub number : ℕ
  pub file_size : ℕ
  pub smallest : List ℕ
  pub largest : List ℕ
  pub rh : Option (List ℕ)

-- FileMetaData(), with the fields that its users set at once.
abbrev pub new_file_meta_data : ℕ → ℕ → List ℕ → List ℕ → FileMetaData
new_file_meta_data number file_size smallest largest = record {
  refs = 0;
  allowed_seeks = 2 ^ 30;
  number = number;
  file_size = file_size;
  smallest = smallest;
  largest = largest;
  rh = none;
}

pub record VersionEdit : Type 0 where
  pub comparator : List ℕ
  pub log_number : ℕ
  pub prev_log_number : ℕ
  pub next_file_number : ℕ
  pub last_sequence : ℕ
  pub has_comparator : Bool
  pub has_log_number : Bool
  pub has_prev_log_number : Bool
  pub has_next_file_number : Bool
  pub has_last_sequence : Bool
  pub compact_pointers : List (ℕ × List ℕ)
  pub deleted_files : List (ℕ × ℕ)
  pub new_files : List (ℕ × FileMetaData)

-- compact_pointers_ is not among the fields that Clear resets.
unfoldable pub clear : VersionEdit → VersionEdit
clear e = record {
  comparator = [];
  log_number = 0;
  prev_log_number = 0;
  next_file_number = 0;
  last_sequence = 0;
  has_comparator = false;
  has_log_number = false;
  has_prev_log_number = false;
  has_next_file_number = false;
  has_last_sequence = false;
  compact_pointers = e.compact_pointers;
  deleted_files = [];
  new_files = [];
}

unfoldable pub set_comparator_name : List ℕ → VersionEdit → VersionEdit
set_comparator_name name e = record e { has_comparator = true; comparator = name }

unfoldable pub set_log_number : ℕ → VersionEdit → VersionEdit
set_log_number num e = record e { has_log_number = true; log_number = num }

unfoldable pub set_prev_log_number : ℕ → VersionEdit → VersionEdit
set_prev_log_number num e = record e { has_prev_log_number = true; prev_log_number = num }

unfoldable pub set_next_file : ℕ → VersionEdit → VersionEdit
set_next_file num e = record e { has_next_file_number = true; next_file_number = num }

unfoldable pub set_last_sequence : ℕ → VersionEdit → VersionEdit
set_last_sequence seq e = record e { has_last_sequence = true; last_sequence = seq }

unfoldable pub set_compact_pointer : ℕ → List ℕ → VersionEdit → VersionEdit
set_compact_pointer level key e = record e {
  compact_pointers = e.compact_pointers ++ ((level, key) ∷ []);
}

unfoldable pub add_file : ℕ → ℕ → ℕ → List ℕ → List ℕ → VersionEdit → VersionEdit
add_file level file file_size smallest largest e = record e {
  new_files = e.new_files ++ ((level, new_file_meta_data file file_size smallest largest) ∷ []);
}

-- std::set::insert in the order of the pairs; a pair that is there is not added.
abbrev pub pair_less : ℕ × ℕ → ℕ × ℕ → Bool
pair_less (l, n) (m, k) = ltb l m || ((l == m) && ltb n k)

unfoldable pub insert_deleted : ℕ × ℕ → List (ℕ × ℕ) → List (ℕ × ℕ)
insert_deleted p [] = p ∷ []
insert_deleted p (q ∷ rest) =
    let more = q ∷ insert_deleted p rest in
    if pair_less p q then p ∷ (q ∷ rest) else if pair_less q p then more else q ∷ rest

unfoldable pub delete_file : ℕ → ℕ → VersionEdit → VersionEdit
unfolding insert_deleted
delete_file level file e = record e { deleted_files = insert_deleted (level, file) e.deleted_files }

-- The tag numbers.
abbrev pub comparator_tag : ℕ
comparator_tag = 1

abbrev pub log_number_tag : ℕ
log_number_tag = 2

abbrev pub next_file_number_tag : ℕ
next_file_number_tag = 3

abbrev pub last_sequence_tag : ℕ
last_sequence_tag = 4

abbrev pub compact_pointer_tag : ℕ
compact_pointer_tag = 5

abbrev pub deleted_file_tag : ℕ
deleted_file_tag = 6

abbrev pub new_file_tag : ℕ
new_file_tag = 7

abbrev pub prev_log_number_tag : ℕ
prev_log_number_tag = 9

-- The steps of EncodeTo: a field that is written if it is there, and the three loops.
unfoldable pub put_name : Bool → ℕ → List ℕ → List ℕ → List ℕ
unfolding put_length_prefixed_slice put_varint32
put_name has tag name dst =
    if has then put_length_prefixed_slice (put_varint32 dst tag) name else dst

unfoldable pub put_number : Bool → ℕ → ℕ → List ℕ → List ℕ
unfolding put_varint32 put_varint64
put_number has tag num dst = if has then put_varint64 (put_varint32 dst tag) num else dst

unfoldable pub put_pointers : List (ℕ × List ℕ) → List ℕ → List ℕ
unfolding put_length_prefixed_slice put_varint32
put_pointers [] dst = dst
put_pointers ((level, key) ∷ rest) dst =
    put_pointers rest
      (put_length_prefixed_slice (put_varint32 (put_varint32 dst compact_pointer_tag) level) key)

unfoldable pub put_deleted : List (ℕ × ℕ) → List ℕ → List ℕ
unfolding put_varint32 put_varint64
put_deleted [] dst = dst
put_deleted ((level, number) ∷ rest) dst =
    put_deleted rest (put_varint64 (put_varint32 (put_varint32 dst deleted_file_tag) level) number)

unfoldable pub put_new_files : List (ℕ × FileMetaData) → List ℕ → List ℕ
unfolding put_length_prefixed_slice put_varint32 put_varint64
put_new_files [] dst = dst
put_new_files ((level, f) ∷ rest) dst =
    let head = put_varint32 (put_varint32 dst new_file_tag) level in
    let numbers = put_varint64 (put_varint64 head f.number) f.file_size in
    put_new_files rest
      (put_length_prefixed_slice (put_length_prefixed_slice numbers f.smallest) f.largest)

unfoldable pub encode_to : VersionEdit → List ℕ → List ℕ
unfolding put_name put_number put_pointers put_deleted put_new_files
encode_to e dst =
    let d1 = put_name e.has_comparator comparator_tag e.comparator dst in
    let d2 = put_number e.has_log_number log_number_tag e.log_number d1 in
    let d3 = put_number e.has_prev_log_number prev_log_number_tag e.prev_log_number d2 in
    let d4 = put_number e.has_next_file_number next_file_number_tag e.next_file_number d3 in
    let d5 = put_number e.has_last_sequence last_sequence_tag e.last_sequence d4 in
    put_new_files e.new_files (put_deleted e.deleted_files (put_pointers e.compact_pointers d5))
