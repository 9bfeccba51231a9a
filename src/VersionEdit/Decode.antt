-- ===== src/VersionEdit/Decode.antt =====
-- VersionEdit::DecodeFrom (Enclave/leveldb/db/version_edit.cpp).
use e_lsm_p.Base.{
  ℕ, zero, suc, Option, none, some, List, [], ◌∷◌, length, ltb, ◌==◌, if◌then◌else◌, ◌>>=◌,
}
use e_lsm_p.Coding.Varint.{get_varint32, get_varint64, get_length_prefixed_slice}
use e_lsm_p.Status.{Status, ok, corruption, bytes}
use e_lsm_p.VersionEdit.{
  VersionEdit, clear, set_comparator_name, set_log_number, set_prev_log_number, set_next_file,
  set_last_sequence, set_compact_pointer, add_file, delete_file, num_levels, comparator_tag,
  log_number_tag, prev_log_number_tag, next_file_number_tag, last_sequence_tag, compact_pointer_tag,
  deleted_file_tag, new_file_tag,
}

unfoldable pub get_internal_key : List ℕ → Option (List ℕ × List ℕ)
unfolding get_length_prefixed_slice
get_internal_key input = get_length_prefixed_slice input

unfoldable pub in_levels : Option (ℕ × List ℕ) → Option (ℕ × List ℕ)
in_levels none = none
in_levels (some (v, input)) = if ltb v num_levels then some (v, input) else none

unfoldable pub get_level : List ℕ → Option (ℕ × List ℕ)
unfolding in_levels get_varint32
get_level input = in_levels (get_varint32 input)

-- What one turn of the loop comes to: the changed edit and the rest of the input, or `msg`.
pub data Turn : Type 0 where
  field : VersionEdit → List ℕ → Turn
  bad : List ℕ → Turn

abbrev pub or_bad : List ℕ → Option (VersionEdit × List ℕ) → Turn
or_bad msg none = bad msg
or_bad msg (some (e, input)) = field e input

-- One reader for each case of the switch.
module _ (e : VersionEdit) where
  unfoldable pub read_name : List ℕ → Option (VersionEdit × List ℕ)
  unfolding get_length_prefixed_slice set_comparator_name
  read_name input = do
    (str, rest) ← get_length_prefixed_slice input
    some (set_comparator_name str e, rest)

  unfoldable pub read_number :
      (ℕ → VersionEdit → VersionEdit) → List ℕ → Option (VersionEdit × List ℕ)
  unfolding get_varint64
  read_number assign input = do (num, rest) ← get_varint64 input; some (assign num e, rest)

  unfoldable pub read_pointer : List ℕ → Option (VersionEdit × List ℕ)
  unfolding get_level get_internal_key set_compact_pointer
  read_pointer input = do
    (level, rest) ← get_level input
    (key, rest') ← get_internal_key rest
    some (set_compact_pointer level key e, rest')

  unfoldable pub read_deleted : List ℕ → Option (VersionEdit × List ℕ)
  unfolding get_level get_varint64 delete_file
  read_deleted input = do
    (level, rest) ← get_level input
    (number, rest') ← get_varint64 rest
    some (delete_file level number e, rest')

  unfoldable pub read_new_file : List ℕ → Option (VersionEdit × List ℕ)
  unfolding get_level get_varint64 get_internal_key add_file
  read_new_file input = do
    (level, r1) ← get_level input
    (number, r2) ← get_varint64 r1
    (file_size, r3) ← get_varint64 r2
    (smallest, r4) ← get_internal_key r3
    (largest, r5) ← get_internal_key r4
    some (add_file level number file_size smallest largest e, r5)

-- The switch on the tag.
unfoldable pub decode_field : ℕ → VersionEdit → List ℕ → Turn
unfolding read_name read_number read_pointer read_deleted read_new_file
decode_field tag e input =
    if tag == comparator_tag
    then or_bad (bytes "comparator name") (read_name e input)
    else if tag == log_number_tag
    then or_bad (bytes "log number") (read_number e set_log_number input)
    else if tag == prev_log_number_tag
    then or_bad (bytes "previous log number") (read_number e set_prev_log_number input)
    else if tag == next_file_number_tag
    then or_bad (bytes "next file number") (read_number e set_next_file input)
    else if tag == last_sequence_tag
    then or_bad (bytes "last sequence number") (read_number e set_last_sequence input)
    else if tag == compact_pointer_tag
    then or_bad (bytes "compaction pointer") (read_pointer e input)
    else if tag == deleted_file_tag
    then or_bad (bytes "deleted file") (read_deleted e input)
    else if tag == new_file_tag
    then or_bad (bytes "new-file entry") (read_new_file e input)
    else bad (bytes "unknown tag")

-- After the loop: what is left of the input is an error.
abbrev pub finish : VersionEdit → List ℕ → Status × VersionEdit
finish e [] = (ok, e)
finish e (b ∷ input) = (corruption (bytes "VersionEdit") (bytes "invalid tag"), e)

-- The loop, with the rounds that are left; `none` is out of rounds.
unfoldable pub decode_loop : ℕ → VersionEdit → List ℕ → Option (Status × VersionEdit)
decode_loop zero e input = none
decode_loop (suc rounds) e input = elim (get_varint32 input) [
  | none ↦ some (finish e input)
  | some (tag, rest) ↦ elim (decode_field tag e rest) [
    | field e' rest' ↦ decode_loop rounds e' rest'
    | bad msg ↦ some (corruption (bytes "VersionEdit") msg, e)
  ]
]

-- Every turn takes the tag at least.
unfoldable pub decode_from : List ℕ → VersionEdit → Option (Status × VersionEdit)
unfolding decode_loop clear
decode_from src e = decode_loop (suc (length src)) (clear e) src
