-- ===== src/VersionEdit/Fields.antt =====
-- The fields of a MANIFEST record, one constructor for each case of the switch, and how each is read
-- back.
use e_lsm_p.Base.{ℕ, ◌<◌, ◌≡◌, ap, ◌∙◌, some, List, ◌++◌, length, arith, append_assoc, lt→ltb}
use e_lsm_p.Coding.Fixed.{IsU32, IsU64}
use e_lsm_p.Coding.Varint.{encode_varint32, encode_varint64}
use e_lsm_p.Coding.Varint.Decode.{get_varint32-encode, get_varint64-encode}
use e_lsm_p.Coding.Varint.Slices.{prefixed, get_length_prefixed_slice-prefixed}
use e_lsm_p.VersionEdit.{
  VersionEdit, set_comparator_name, set_log_number, set_prev_log_number, set_next_file,
  set_last_sequence, set_compact_pointer, add_file, delete_file, num_levels,
}
use e_lsm_p.VersionEdit.Decode.{
  field, or_bad, get_level, get_internal_key, in_levels, read_name, read_number, read_pointer,
  read_deleted, read_new_file, decode_field,
}

pub data Field : Type 0 where
  name_field : List ℕ → Field
  log_field : ℕ → Field
  prev_log_field : ℕ → Field
  next_file_field : ℕ → Field
  last_sequence_field : ℕ → Field
  pointer_field : ℕ → List ℕ → Field
  deleted_field : ℕ → ℕ → Field
  new_file_field : ℕ → ℕ → ℕ → List ℕ → List ℕ → Field

abbrev pub tag_of : Field → ℕ
tag_of (name_field s) = 1
tag_of (log_field n) = 2
tag_of (prev_log_field n) = 9
tag_of (next_file_field n) = 3
tag_of (last_sequence_field n) = 4
tag_of (pointer_field l k) = 5
tag_of (deleted_field l n) = 6
tag_of (new_file_field l n z s g) = 7

abbrev pub payload : Field → List ℕ
payload (name_field s) = prefixed s
payload (log_field n) = encode_varint64 n
payload (prev_log_field n) = encode_varint64 n
payload (next_file_field n) = encode_varint64 n
payload (last_sequence_field n) = encode_varint64 n
payload (pointer_field l k) = encode_varint32 l ++ prefixed k
payload (deleted_field l n) = encode_varint32 l ++ encode_varint64 n
payload (new_file_field l n z s g) =
    encode_varint32 l ++ (encode_varint64 n ++ (encode_varint64 z ++ (prefixed s ++ prefixed g)))

-- What a field does to an edit.
abbrev pub apply_field : Field → VersionEdit → VersionEdit
apply_field (name_field s) = set_comparator_name s
apply_field (log_field n) = set_log_number n
apply_field (prev_log_field n) = set_prev_log_number n
apply_field (next_file_field n) = set_next_file n
apply_field (last_sequence_field n) = set_last_sequence n
apply_field (pointer_field l k) = set_compact_pointer l k
apply_field (deleted_field l n) = delete_file l n
apply_field (new_file_field l n z s g) = add_file l n z s g

-- Levels, numbers and sizes in range.
abbrev pub FieldFits : Field → Type 0
FieldFits (name_field s) = IsU32 (length s)
FieldFits (log_field n) = IsU64 n
FieldFits (prev_log_field n) = IsU64 n
FieldFits (next_file_field n) = IsU64 n
FieldFits (last_sequence_field n) = IsU64 n
FieldFits (pointer_field l k) = (l < num_levels) × IsU32 (length k)
FieldFits (deleted_field l n) = (l < num_levels) × IsU64 n
FieldFits (new_file_field l n z s g) =
    (l < num_levels) × IsU64 n × IsU64 z × IsU32 (length s) × IsU32 (length g)

get_level-encode :
    (l : ℕ) (rest : List ℕ)
    → l < num_levels
    → get_level (encode_varint32 l ++ rest) ≡ some (l, rest)
unfolding get_level
get_level-encode l rest h =
    ap in_levels (get_varint32-encode l rest (omega arith)) ∙ (rw (lt→ltb l num_levels h))

get_internal_key-prefixed :
    (k rest : List ℕ) → IsU32 (length k) → get_internal_key (prefixed k ++ rest) ≡ some (k, rest)
unfolding get_internal_key
get_internal_key-prefixed k rest h = get_length_prefixed_slice-prefixed k rest h

module _ (e : VersionEdit) (rest : List ℕ) where
  number_read :
      (assign : ℕ → VersionEdit → VersionEdit) (n : ℕ)
      → IsU64 n
      → read_number e assign (encode_varint64 n ++ rest) ≡ some (assign n e, rest)
  unfolding read_number
  number_read assign n h = rw (get_varint64-encode n rest h)

  name_read :
      (s : List ℕ)
      → IsU32 (length s)
      → read_name e (prefixed s ++ rest) ≡ some (set_comparator_name s e, rest)
  unfolding read_name
  name_read s h = rw (get_length_prefixed_slice-prefixed s rest h)

  pointer_read :
      (l : ℕ) (k : List ℕ)
      → l < num_levels
      → IsU32 (length k)
      → read_pointer e ((encode_varint32 l ++ prefixed k) ++ rest)
        ≡ some (set_compact_pointer l k e, rest)
  unfolding read_pointer
  pointer_read l k hl hk = rw (
    append_assoc (encode_varint32 l) (prefixed k) rest,
    get_level-encode l (prefixed k ++ rest) hl,
    get_internal_key-prefixed k rest hk,
  )

  deleted_read :
      (l n : ℕ)
      → l < num_levels
      → IsU64 n
      → read_deleted e ((encode_varint32 l ++ encode_varint64 n) ++ rest)
        ≡ some (delete_file l n e, rest)
  unfolding read_deleted
  deleted_read l n hl hn = rw (
    append_assoc (encode_varint32 l) (encode_varint64 n) rest,
    get_level-encode l (encode_varint64 n ++ rest) hl,
    get_varint64-encode n rest hn,
  )

  new_file_read :
      (l n z : ℕ) (s g : List ℕ)
      → FieldFits (new_file_field l n z s g)
      → read_new_file e (payload (new_file_field l n z s g) ++ rest)
        ≡ some (add_file l n z s g e, rest)
  unfolding read_new_file
  new_file_read l n z s g (hl, hn, hz, hs, hg) = rw (
    append_assoc (encode_varint32 l)
        (encode_varint64 n ++ (encode_varint64 z ++ (prefixed s ++ prefixed g))) rest,
    append_assoc (encode_varint64 n) (encode_varint64 z ++ (prefixed s ++ prefixed g)) rest,
    append_assoc (encode_varint64 z) (prefixed s ++ prefixed g) rest,
    append_assoc (prefixed s) (prefixed g) rest,
    get_level-encode l
        (encode_varint64 n ++ (encode_varint64 z ++ (prefixed s ++ (prefixed g ++ rest)))) hl,
    get_varint64-encode n (encode_varint64 z ++ (prefixed s ++ (prefixed g ++ rest))) hn,
    get_varint64-encode z (prefixed s ++ (prefixed g ++ rest)) hz,
    get_internal_key-prefixed s (prefixed g ++ rest) hs,
    get_internal_key-prefixed g rest hg,
  )

  -- A field behind its tag is read as the change that it stands for.
  pub decode_field-payload :
      (f : Field)
      → FieldFits f
      → decode_field (tag_of f) e (payload f ++ rest) ≡ field (apply_field f e) rest
  unfolding decode_field
  decode_field-payload (name_field s) h = ap (or_bad _) (name_read s h)
  decode_field-payload (log_field n) h = ap (or_bad _) (number_read set_log_number n h)
  decode_field-payload (prev_log_field n) h = ap (or_bad _) (number_read set_prev_log_number n h)
  decode_field-payload (next_file_field n) h = ap (or_bad _) (number_read set_next_file n h)
  decode_field-payload (last_sequence_field n) h = ap (or_bad _) (number_read set_last_sequence n h)
  decode_field-payload (pointer_field l k) h = ap (or_bad _) (pointer_read l k h.0 h.1)
  decode_field-payload (deleted_field l n) h = ap (or_bad _) (deleted_read l n h.0 h.1)
  decode_field-payload (new_file_field l n z s g) h = ap (or_bad _) (new_file_read l n z s g h)
