-- ===== src/VersionEdit/Written.antt =====
-- What EncodeTo writes: the bytes of the fields that are there, in its order.
use e_lsm_p.Base.{
  ℕ, ◌≡◌, refl, sym, ap, ◌∙◌, Bool, true, false, List, [], ◌∷◌, ◌++◌, length, All, append_assoc,
  append-nil,
}
use e_lsm_p.Coding.Fixed.{IsU32}
use e_lsm_p.Coding.Varint.{
  encode_varint32, encode_varint64, put_varint32, put_varint64, put_length_prefixed_slice,
}
use e_lsm_p.Coding.Varint.Slices.{prefixed, put_length_prefixed_slice-prefixed}
use e_lsm_p.VersionEdit.{
  VersionEdit, FileMetaData, put_name, put_number, put_pointers, put_deleted, put_new_files,
  encode_to,
}
use e_lsm_p.VersionEdit.Fields.{
  Field, name_field, log_field, prev_log_field, next_file_field, last_sequence_field, pointer_field,
  deleted_field, new_file_field, tag_of, payload, FieldFits,
}

abbrev pub field_bytes : Field → List ℕ
field_bytes f = encode_varint32 (tag_of f) ++ payload f

abbrev pub all_bytes : List Field → List ℕ
all_bytes [] = []
all_bytes (f ∷ fs) = field_bytes f ++ all_bytes fs

-- The fields that EncodeTo writes, in its order.
abbrev pub opt : Bool → Field → List Field
opt true f = f ∷ []
opt false f = []

abbrev pub pointer_fields : List (ℕ × List ℕ) → List Field
pointer_fields [] = []
pointer_fields ((l, k) ∷ rest) = pointer_field l k ∷ pointer_fields rest

abbrev pub deleted_fields : List (ℕ × ℕ) → List Field
deleted_fields [] = []
deleted_fields ((l, n) ∷ rest) = deleted_field l n ∷ deleted_fields rest

abbrev pub new_file_fields : List (ℕ × FileMetaData) → List Field
new_file_fields [] = []
new_file_fields ((l, f) ∷ rest) =
    new_file_field l f.number f.file_size f.smallest f.largest ∷ new_file_fields rest

abbrev pub fields_of : VersionEdit → List Field
fields_of e =
    opt e.has_comparator (name_field e.comparator)
    ++ (opt e.has_log_number (log_field e.log_number)
        ++ (opt e.has_prev_log_number (prev_log_field e.prev_log_number)
            ++ (opt e.has_next_file_number (next_file_field e.next_file_number)
                ++ (opt e.has_last_sequence (last_sequence_field e.last_sequence)
                    ++ (pointer_fields e.compact_pointers
                        ++ (deleted_fields e.deleted_files ++ new_file_fields e.new_files))))))

pub all_bytes-append : (fs gs : List Field) → all_bytes (fs ++ gs) ≡ all_bytes fs ++ all_bytes gs
all_bytes-append [] gs = refl
all_bytes-append (f ∷ fs) gs =
    ap (λ (t : List ℕ). field_bytes f ++ t) (all_bytes-append fs gs)
    ∙ sym (append_assoc (field_bytes f) (all_bytes fs) (all_bytes gs))

put_varint32_lem : (dst : List ℕ) (v : ℕ) → put_varint32 dst v ≡ dst ++ encode_varint32 v
unfolding put_varint32
put_varint32_lem dst v = refl

put_varint64_lem : (dst : List ℕ) (v : ℕ) → put_varint64 dst v ≡ dst ++ encode_varint64 v
unfolding put_varint64
put_varint64_lem dst v = refl

put_number_lem :
    (has : Bool) (f : Field) (n : ℕ) (dst : List ℕ)
    → payload f ≡ encode_varint64 n
    → put_number has (tag_of f) n dst ≡ dst ++ all_bytes (opt has f)
put_number_lem true f n dst h =
    unfold put_number in
    rw (put_varint64_lem, put_varint32_lem, h)
      (append_assoc dst (encode_varint32 (tag_of f)) (encode_varint64 n)
        ∙ ap (λ (t : List ℕ). dst ++ t)
            (sym (append-nil (encode_varint32 (tag_of f) ++ encode_varint64 n))))
put_number_lem false f n dst h = unfold put_number in sym (append-nil dst)

put_name_lem :
    (has : Bool) (s dst : List ℕ)
    → IsU32 (length s)
    → put_name has 1 s dst ≡ dst ++ all_bytes (opt has (name_field s))
put_name_lem true s dst h =
    unfold put_name in
    rw (put_varint32_lem, put_length_prefixed_slice-prefixed (dst ++ encode_varint32 1) s h)
      (append_assoc dst (encode_varint32 1) (prefixed s)
        ∙ ap (λ (t : List ℕ). dst ++ t) (sym (append-nil (encode_varint32 1 ++ prefixed s))))
put_name_lem false s dst h = unfold put_name in sym (append-nil dst)

pointer_step :
    (dst k : List ℕ) (l : ℕ)
    → IsU32 (length k)
    → put_length_prefixed_slice (put_varint32 (put_varint32 dst 5) l) k
      ≡ dst ++ field_bytes (pointer_field l k)
pointer_step dst k l h =
    put_length_prefixed_slice-prefixed (put_varint32 (put_varint32 dst 5) l) k h
    ∙ ap (λ (t : List ℕ). t ++ prefixed k)
        (put_varint32_lem (put_varint32 dst 5) l
          ∙ ap (λ (t : List ℕ). t ++ encode_varint32 l) (put_varint32_lem dst 5))
    ∙ append_assoc (dst ++ encode_varint32 5) (encode_varint32 l) (prefixed k)
    ∙ append_assoc dst (encode_varint32 5) (encode_varint32 l ++ prefixed k)

deleted_step :
    (dst : List ℕ) (l n : ℕ)
    → put_varint64 (put_varint32 (put_varint32 dst 6) l) n ≡ dst ++ field_bytes (deleted_field l n)
deleted_step dst l n =
    put_varint64_lem (put_varint32 (put_varint32 dst 6) l) n
    ∙ ap (λ (t : List ℕ). t ++ encode_varint64 n)
        (put_varint32_lem (put_varint32 dst 6) l
          ∙ ap (λ (t : List ℕ). t ++ encode_varint32 l) (put_varint32_lem dst 6))
    ∙ append_assoc (dst ++ encode_varint32 6) (encode_varint32 l) (encode_varint64 n)
    ∙ append_assoc dst (encode_varint32 6) (encode_varint32 l ++ encode_varint64 n)

file_numbers :
    (dst : List ℕ) (l n z : ℕ)
    → put_varint64 (put_varint64 (put_varint32 (put_varint32 dst 7) l) n) z
      ≡ dst
        ++ (encode_varint32 7 ++ (encode_varint32 l ++ (encode_varint64 n ++ encode_varint64 z)))
file_numbers dst l n z =
    let b7 = encode_varint32 7 in
    let bl = encode_varint32 l in
    let bn = encode_varint64 n in
    let bz = encode_varint64 z in
    put_varint64_lem (put_varint64 (put_varint32 (put_varint32 dst 7) l) n) z
    ∙ ap (λ (t : List ℕ). t ++ bz)
        (put_varint64_lem (put_varint32 (put_varint32 dst 7) l) n
          ∙ ap (λ (t : List ℕ). t ++ bn)
              (put_varint32_lem (put_varint32 dst 7) l
                ∙ ap (λ (t : List ℕ). t ++ bl) (put_varint32_lem dst 7)))
    ∙ simp append_assoc

new_file_step :
    (dst : List ℕ) (l n z : ℕ) (s g : List ℕ)
    → IsU32 (length s)
    → IsU32 (length g)
    → put_length_prefixed_slice
        (put_length_prefixed_slice
          (put_varint64 (put_varint64 (put_varint32 (put_varint32 dst 7) l) n) z)
          s)
        g
      ≡ dst ++ field_bytes (new_file_field l n z s g)
new_file_step dst l n z s g hs hg =
    let base = put_varint64 (put_varint64 (put_varint32 (put_varint32 dst 7) l) n) z in
    put_length_prefixed_slice-prefixed (put_length_prefixed_slice base s) g hg
    ∙ ap (λ (t : List ℕ). t ++ prefixed g)
        (put_length_prefixed_slice-prefixed base s hs
          ∙ ap (λ (t : List ℕ). t ++ prefixed s) (file_numbers dst l n z))
    ∙ shape dst (encode_varint32 7) (encode_varint32 l) (encode_varint64 n) (encode_varint64 z)
        (prefixed s) (prefixed g)
  where
    shape :
        (d a b c e f g : List ℕ)
        → ((d ++ (a ++ (b ++ (c ++ e)))) ++ f) ++ g ≡ d ++ (a ++ (b ++ (c ++ (e ++ (f ++ g)))))
    shape d a b c e f g = simp append_assoc

-- Each loop appends the bytes of its fields.
loop_step :
    (dst : List ℕ) (f : Field) (fs : List Field)
    → (dst ++ field_bytes f) ++ all_bytes fs ≡ dst ++ all_bytes (f ∷ fs)
loop_step dst f fs = append_assoc dst (field_bytes f) (all_bytes fs)

put_pointers-cons :
    (l : ℕ) (k : List ℕ) (ps : List (ℕ × List ℕ)) (dst : List ℕ)
    → put_pointers ((l, k) ∷ ps) dst
      ≡ put_pointers ps (put_length_prefixed_slice (put_varint32 (put_varint32 dst 5) l) k)
unfolding put_pointers
put_pointers-cons l k ps dst = refl

put_deleted-cons :
    (l n : ℕ) (ds : List (ℕ × ℕ)) (dst : List ℕ)
    → put_deleted ((l, n) ∷ ds) dst
      ≡ put_deleted ds (put_varint64 (put_varint32 (put_varint32 dst 6) l) n)
unfolding put_deleted
put_deleted-cons l n ds dst = refl

put_new_files-cons :
    (l : ℕ) (f : FileMetaData) (files : List (ℕ × FileMetaData)) (dst : List ℕ)
    → put_new_files ((l, f) ∷ files) dst
      ≡ put_new_files files (
          put_length_prefixed_slice
            (put_length_prefixed_slice
              (put_varint64
                (put_varint64 (put_varint32 (put_varint32 dst 7) l) f.number)
                f.file_size)
              f.smallest)
            f.largest)
unfolding put_new_files
put_new_files-cons l f files dst = refl

put_pointers_lem :
    (ps : List (ℕ × List ℕ)) (dst : List ℕ)
    → All FieldFits (pointer_fields ps)
    → put_pointers ps dst ≡ dst ++ all_bytes (pointer_fields ps)
put_pointers_lem [] dst h = unfold put_pointers in sym (append-nil dst)
put_pointers_lem ((l, k) ∷ ps) dst ((hl, hk), hs) =
    put_pointers-cons l k ps dst
    ∙ ap (put_pointers ps) (pointer_step dst k l hk)
    ∙ put_pointers_lem ps (dst ++ field_bytes (pointer_field l k)) hs
    ∙ loop_step dst (pointer_field l k) (pointer_fields ps)

put_deleted_lem :
    (ds : List (ℕ × ℕ)) (dst : List ℕ) → put_deleted ds dst ≡ dst ++ all_bytes (deleted_fields ds)
put_deleted_lem [] dst = unfold put_deleted in sym (append-nil dst)
put_deleted_lem ((l, n) ∷ ds) dst =
    put_deleted-cons l n ds dst
    ∙ ap (put_deleted ds) (deleted_step dst l n)
    ∙ put_deleted_lem ds (dst ++ field_bytes (deleted_field l n))
    ∙ loop_step dst (deleted_field l n) (deleted_fields ds)

put_new_files_lem :
    (files : List (ℕ × FileMetaData)) (dst : List ℕ)
    → All FieldFits (new_file_fields files)
    → put_new_files files dst ≡ dst ++ all_bytes (new_file_fields files)
put_new_files_lem [] dst h = unfold put_new_files in sym (append-nil dst)
put_new_files_lem ((l, f) ∷ files) dst ((hl, hn, hz, hs, hg), more) =
    put_new_files-cons l f files dst
    ∙ ap (put_new_files files) (new_file_step dst l f.number f.file_size f.smallest f.largest hs hg)
    ∙ put_new_files_lem files
        (dst ++ field_bytes (new_file_field l f.number f.file_size f.smallest f.largest)) more
    ∙ loop_step dst (new_file_field l f.number f.file_size f.smallest f.largest)
        (new_file_fields files)

encode_to_steps :
    (e : VersionEdit) (dst : List ℕ)
    → encode_to e dst
      ≡ put_new_files e.new_files (
          put_deleted e.deleted_files (
            put_pointers e.compact_pointers (
              put_number e.has_last_sequence 4 e.last_sequence (
                put_number e.has_next_file_number 3 e.next_file_number (
                  put_number e.has_prev_log_number 9 e.prev_log_number (
                    put_number e.has_log_number 2 e.log_number
                      (put_name e.has_comparator 1 e.comparator dst)))))))
unfolding encode_to
encode_to_steps e dst = refl

-- `encode_to` appends the bytes of the edit's fields.
pub encode_to_lem :
    (e : VersionEdit) (dst : List ℕ)
    → IsU32 (length e.comparator)
    → All FieldFits (pointer_fields e.compact_pointers)
    → All FieldFits (new_file_fields e.new_files)
    → encode_to e dst ≡ dst ++ all_bytes (fields_of e)
encode_to_lem e dst hc hp hf =
    let n1 = name_field e.comparator in
    let n2 = log_field e.log_number in
    let n3 = prev_log_field e.prev_log_number in
    let n4 = next_file_field e.next_file_number in
    let n5 = last_sequence_field e.last_sequence in
    rw
      (
        encode_to_steps,
        put_name_lem e.has_comparator e.comparator dst hc,
        put_number_lem e.has_log_number n2 e.log_number _ refl,
        put_number_lem e.has_prev_log_number n3 e.prev_log_number _ refl,
        put_number_lem e.has_next_file_number n4 e.next_file_number _ refl,
        put_number_lem e.has_last_sequence n5 e.last_sequence _ refl,
        put_pointers_lem e.compact_pointers _ hp,
        put_deleted_lem e.deleted_files,
        put_new_files_lem e.new_files _ hf,
      )
      (simp (all_bytes-append, append_assoc))
