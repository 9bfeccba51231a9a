-- ===== src/VersionEdit/RoundTrip.antt =====
-- EncodeTo followed by DecodeFrom.
use e_lsm_p.Base.{
  ℕ, suc, ◌≤◌, ◌≡◌, refl, ap, ◌∙◌, Bool, true, false, some, List, [], ◌∷◌, ◌++◌, length, arith, All,
  length-append, All-append,
}
use e_lsm_p.Coding.Fixed.{IsU32, IsU64}
use e_lsm_p.Coding.Varint.{encode_varint32}
use e_lsm_p.Status.{ok}
use e_lsm_p.VersionEdit.{VersionEdit, clear, encode_to}
use e_lsm_p.VersionEdit.Decode.{decode_from}
use e_lsm_p.VersionEdit.Written.{
  field_bytes, all_bytes, opt, pointer_fields, deleted_fields, new_file_fields, fields_of,
  encode_to_lem,
}
use e_lsm_p.Coding.Varint.Encode.{encode_varint32-groups, length-groups}
use e_lsm_p.VersionEdit.Apply.{
  apply_all, tag_bound, decode_loop-All, apply_all-append, apply_name, apply_log, apply_prev_log,
  apply_next_file, apply_last_sequence, apply_pointers, apply_deleted, apply_new_files, Ascending,
  IsPlain,
}
use e_lsm_p.VersionEdit.Fields.{
  Field, name_field, log_field, prev_log_field, next_file_field, last_sequence_field, tag_of,
  payload, FieldFits,
}

-- An edit whose parts fit their encodings: an absent field has its default, levels are below
-- kNumLevels, the set of deleted files is in its order, and new files are plain.
pub record WellFormed (e : VersionEdit) : Type 0 where
  pub name_default : e.has_comparator ≡ false → e.comparator ≡ []
  pub log_default : e.has_log_number ≡ false → e.log_number ≡ 0
  pub prev_log_default : e.has_prev_log_number ≡ false → e.prev_log_number ≡ 0
  pub next_file_default : e.has_next_file_number ≡ false → e.next_file_number ≡ 0
  pub last_sequence_default : e.has_last_sequence ≡ false → e.last_sequence ≡ 0
  pub name_fits : IsU32 (length e.comparator)
  pub log_fits : IsU64 e.log_number
  pub prev_log_fits : IsU64 e.prev_log_number
  pub next_file_fits : IsU64 e.next_file_number
  pub last_sequence_fits : IsU64 e.last_sequence
  pub pointers_fit : All FieldFits (pointer_fields e.compact_pointers)
  pub deleted_fit : All FieldFits (deleted_fields e.deleted_files)
  pub files_fit : All FieldFits (new_file_fields e.new_files)
  pub ascending : Ascending e.deleted_files
  pub plain : All IsPlain e.new_files

opt-fits : (has : Bool) (f : Field) → FieldFits f → All FieldFits (opt has f)
opt-fits true f h = (h, tt)
opt-fits false f h = tt

fields-fit : (e : VersionEdit) → WellFormed e → All FieldFits (fields_of e)
fields-fit e h =
    All-append FieldFits _ _ (opt-fits e.has_comparator (name_field e.comparator) h.name_fits) (
      All-append FieldFits _ _ (opt-fits e.has_log_number (log_field e.log_number) h.log_fits) (
        All-append FieldFits _ _
          (opt-fits e.has_prev_log_number (prev_log_field e.prev_log_number) h.prev_log_fits)
          (All-append FieldFits _ _
            (opt-fits e.has_next_file_number (next_file_field e.next_file_number) h.next_file_fits)
            (All-append FieldFits _ _
              (opt-fits e.has_last_sequence (last_sequence_field e.last_sequence)
                h.last_sequence_fits)
              (All-append FieldFits _ _ h.pointers_fit
                (All-append FieldFits _ _ h.deleted_fit h.files_fit))))))

-- The edit that is read over `old`.
abbrev pub read_over : VersionEdit → VersionEdit → VersionEdit
read_over old e = record e { compact_pointers = old.compact_pointers ++ e.compact_pointers }

then_apply :
    (fs gs : List Field) (x y : VersionEdit)
    → apply_all fs x ≡ y
    → apply_all (fs ++ gs) x ≡ apply_all gs y
then_apply fs gs x y e = apply_all-append fs gs x ∙ ap (apply_all gs) e

apply-fields_of :
    (old e : VersionEdit) → WellFormed e → apply_all (fields_of e) (clear old) ≡ read_over old e
unfolding clear
apply-fields_of old e h =
    let x1 = record (clear old) { comparator = e.comparator; has_comparator = e.has_comparator } in
    let x2 = record x1 { log_number = e.log_number; has_log_number = e.has_log_number } in
    let x3 = record x2 {
      prev_log_number = e.prev_log_number;
      has_prev_log_number = e.has_prev_log_number;
    } in
    let x4 = record x3 {
      next_file_number = e.next_file_number;
      has_next_file_number = e.has_next_file_number;
    } in
    let x5 = record x4 {
      last_sequence = e.last_sequence;
      has_last_sequence = e.has_last_sequence;
    } in
    let x6 = record x5 { compact_pointers = old.compact_pointers ++ e.compact_pointers } in
    let x7 = record x6 { deleted_files = e.deleted_files } in
    then_apply (opt e.has_comparator (name_field e.comparator)) _ (clear old) x1
      (apply_name (clear old) e.has_comparator e.comparator refl refl h.name_default)
    ∙ then_apply (opt e.has_log_number (log_field e.log_number)) _ x1 x2
        (apply_log x1 e.has_log_number e.log_number refl refl h.log_default)
    ∙ then_apply (opt e.has_prev_log_number (prev_log_field e.prev_log_number)) _ x2 x3
        (apply_prev_log x2 e.has_prev_log_number e.prev_log_number refl refl h.prev_log_default)
    ∙ then_apply (opt e.has_next_file_number (next_file_field e.next_file_number)) _ x3 x4
        (apply_next_file x3 e.has_next_file_number e.next_file_number refl refl h.next_file_default)
    ∙ then_apply (opt e.has_last_sequence (last_sequence_field e.last_sequence)) _ x4 x5 (
        apply_last_sequence x4 e.has_last_sequence e.last_sequence refl refl
          h.last_sequence_default)
    ∙ then_apply (pointer_fields e.compact_pointers) _ x5 x6 (apply_pointers e.compact_pointers x5)
    ∙ then_apply (deleted_fields e.deleted_files) (new_file_fields e.new_files) x6 x7
        (apply_deleted e.deleted_files x6 h.ascending)
    ∙ apply_new_files e.new_files x7 h.plain

tag_nonempty : (t : ℕ) → IsU32 t → 1 ≤ length (encode_varint32 t)
tag_nonempty t h = rw (encode_varint32-groups t h) ((length-groups 4 t).0)

tags-length : (fs : List Field) → length fs ≤ length (all_bytes fs)
tags-length [] = omega arith
tags-length (f ∷ fs) = omega (
  arith,
  tags-length fs,
  tag_nonempty (tag_of f) (tag_bound f),
  length-append (field_bytes f) (all_bytes fs),
  length-append (encode_varint32 (tag_of f)) (payload f),
)

-- A well-formed edit is read back from the bytes that EncodeTo writes for it, with status OK, into
-- whatever edit DecodeFrom is called on: every field is the written one, except that the compaction
-- pointers are added to those which that edit held before.
pub decode_from-encode_to :
    (old e : VersionEdit)
    → WellFormed e
    → decode_from (encode_to e []) old ≡ some (ok, read_over old e)
unfolding decode_from
decode_from-encode_to old e h = rw (encode_to_lem e [] h.name_fits h.pointers_fit h.files_fit) (
    decode_loop-All (fields_of e) (suc (length (all_bytes (fields_of e)))) (clear old)
      (fields-fit e h) (omega (arith, tags-length (fields_of e)))
    ∙ ap (λ (t : VersionEdit). some (ok, t)) (apply-fields_of old e h))
