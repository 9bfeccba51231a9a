-- ===== src/VersionEdit/Apply.antt =====
-- What DecodeFrom makes of a sequence of fields.
use e_lsm_p.Base.{
  ℕ, zero, suc, ◌<◌, ◌≡◌, refl, sym, ap, ◌∙◌, Bool, true, false, none, some, List, [], ◌∷◌, ◌++◌,
  length, arith, All, append_assoc, append-nil, All-middle,
}
use e_lsm_p.Coding.Fixed.{IsU32}
use e_lsm_p.Coding.Varint.{encode_varint32, get_varint32}
use e_lsm_p.Coding.Varint.Decode.{get_varint32-encode}
use e_lsm_p.Status.{ok}
use e_lsm_p.VersionEdit.{
  VersionEdit, FileMetaData, new_file_meta_data, set_comparator_name, set_log_number,
  set_prev_log_number, set_next_file, set_last_sequence, set_compact_pointer, add_file, delete_file,
  pair_less, insert_deleted,
}
use e_lsm_p.VersionEdit.Decode.{field, decode_field, decode_loop}
use e_lsm_p.VersionEdit.Written.{
  field_bytes, all_bytes, opt, pointer_fields, deleted_fields, new_file_fields,
}
use e_lsm_p.VersionEdit.Fields.{
  Field, name_field, log_field, prev_log_field, next_file_field, last_sequence_field, pointer_field,
  deleted_field, new_file_field, tag_of, payload, apply_field, FieldFits, decode_field-payload,
}

abbrev pub apply_all : List Field → VersionEdit → VersionEdit
apply_all [] e = e
apply_all (f ∷ fs) e = apply_all fs (apply_field f e)

pub tag_bound : (f : Field) → IsU32 (tag_of f)
tag_bound (name_field s) = omega arith
tag_bound (log_field n) = omega arith
tag_bound (prev_log_field n) = omega arith
tag_bound (next_file_field n) = omega arith
tag_bound (last_sequence_field n) = omega arith
tag_bound (pointer_field l k) = omega arith
tag_bound (deleted_field l n) = omega arith
tag_bound (new_file_field l n z s g) = omega arith

loop_round :
    (rounds tag : ℕ) (e e' : VersionEdit) (input rest rest' : List ℕ)
    → get_varint32 input ≡ some (tag, rest)
    → decode_field tag e rest ≡ field e' rest'
    → decode_loop (suc rounds) e input ≡ decode_loop rounds e' rest'
unfolding decode_loop
loop_round rounds tag e e' input rest rest' h k = rw (h, decode_loop) (rw (k, decode_loop))

get_varint32-nil : get_varint32 [] ≡ none
unfolding get_varint32
get_varint32-nil = refl

pub decode_loop-All :
    (fs : List Field) (rounds : ℕ) (e : VersionEdit)
    → All FieldFits fs
    → length fs < rounds
    → decode_loop rounds e (all_bytes fs) ≡ some (ok, apply_all fs e)
decode_loop-All fs zero e h room = absurd (omega arith)
decode_loop-All [] (suc rounds) e h room = unfold decode_loop in rw (get_varint32-nil, decode_loop)
decode_loop-All (f ∷ fs) (suc rounds) e (h, hs) room =
    loop_round rounds (tag_of f) e (apply_field f e) (field_bytes f ++ all_bytes fs)
      (payload f ++ all_bytes fs) (all_bytes fs)
      (ap get_varint32 (append_assoc (encode_varint32 (tag_of f)) (payload f) (all_bytes fs))
        ∙ get_varint32-encode (tag_of f) (payload f ++ all_bytes fs) (tag_bound f))
      (decode_field-payload e (all_bytes fs) f h)
    ∙ decode_loop-All fs rounds (apply_field f e) hs (omega arith)

pub apply_all-append :
    (fs gs : List Field) (e : VersionEdit) → apply_all (fs ++ gs) e ≡ apply_all gs (apply_all fs e)
apply_all-append [] gs e = refl
apply_all-append (f ∷ fs) gs e = apply_all-append fs gs (apply_field f e)

-- An optional field over its defaults.
module _ (x : VersionEdit) where
  pub apply_name :
      (has : Bool) (s : List ℕ)
      → x.comparator ≡ []
      → x.has_comparator ≡ false
      → (has ≡ false → s ≡ [])
      → apply_all (opt has (name_field s)) x ≡ record x { comparator = s; has_comparator = has }
  unfolding set_comparator_name
  apply_name true s hs hh d = refl
  apply_name false s hs hh d = ground (arith, d refl)

  pub apply_log :
      (has : Bool) (n : ℕ)
      → x.log_number ≡ 0
      → x.has_log_number ≡ false
      → (has ≡ false → n ≡ 0)
      → apply_all (opt has (log_field n)) x ≡ record x { log_number = n; has_log_number = has }
  unfolding set_log_number
  apply_log true n hs hh d = refl
  apply_log false n hs hh d = ground (arith, d refl)

  pub apply_prev_log :
      (has : Bool) (n : ℕ)
      → x.prev_log_number ≡ 0
      → x.has_prev_log_number ≡ false
      → (has ≡ false → n ≡ 0)
      → apply_all (opt has (prev_log_field n)) x
        ≡ record x { prev_log_number = n; has_prev_log_number = has }
  unfolding set_prev_log_number
  apply_prev_log true n hs hh d = refl
  apply_prev_log false n hs hh d = ground (arith, d refl)

  pub apply_next_file :
      (has : Bool) (n : ℕ)
      → x.next_file_number ≡ 0
      → x.has_next_file_number ≡ false
      → (has ≡ false → n ≡ 0)
      → apply_all (opt has (next_file_field n)) x
        ≡ record x { next_file_number = n; has_next_file_number = has }
  unfolding set_next_file
  apply_next_file true n hs hh d = refl
  apply_next_file false n hs hh d = ground (arith, d refl)

  pub apply_last_sequence :
      (has : Bool) (n : ℕ)
      → x.last_sequence ≡ 0
      → x.has_last_sequence ≡ false
      → (has ≡ false → n ≡ 0)
      → apply_all (opt has (last_sequence_field n)) x
        ≡ record x { last_sequence = n; has_last_sequence = has }
  unfolding set_last_sequence
  apply_last_sequence true n hs hh d = refl
  apply_last_sequence false n hs hh d = ground (arith, d refl)

pub apply_pointers :
    (ps : List (ℕ × List ℕ)) (x : VersionEdit)
    → apply_all (pointer_fields ps) x ≡ record x { compact_pointers = x.compact_pointers ++ ps }
apply_pointers [] x =
    ap (λ t. record x { compact_pointers = t }) (sym (append-nil x.compact_pointers))
apply_pointers ((l, k) ∷ ps) x =
    apply_pointers ps (set_compact_pointer l k x)
    ∙ (unfold set_compact_pointer in
        ap (λ t. record x { compact_pointers = t })
          (append_assoc x.compact_pointers ((l, k) ∷ []) ps))

-- Every pair of the set is below the ones that come after it.
abbrev pub Ascending : List (ℕ × ℕ) → Type 0
Ascending [] = Unit
Ascending (p ∷ ps) = All (λ q. pair_less p q ≡ true) ps × Ascending ps

less_asym : (p q : ℕ × ℕ) → pair_less p q ≡ true → pair_less q p ≡ false
less_asym (l, n) (m, k) h = ground arith

insert_last :
    (p : ℕ × ℕ) (acc ps : List (ℕ × ℕ))
    → Ascending (acc ++ (p ∷ ps))
    → insert_deleted p acc ≡ acc ++ (p ∷ [])
unfolding insert_deleted
insert_last p [] ps h = refl
insert_last p (q ∷ acc) ps (h, more) =
    let below : pair_less q p ≡ true = All-middle (λ r. pair_less q r ≡ true) acc p ps h in
    rw (less_asym q p below, below) (ap (λ t. q ∷ t) (insert_last p acc ps more))

pub apply_deleted :
    (ds : List (ℕ × ℕ)) (x : VersionEdit)
    → Ascending (x.deleted_files ++ ds)
    → apply_all (deleted_fields ds) x ≡ record x { deleted_files = x.deleted_files ++ ds }
apply_deleted [] x h = ap (λ t. record x { deleted_files = t }) (sym (append-nil x.deleted_files))
apply_deleted ((l, n) ∷ ds) x h =
    let new = x.deleted_files ++ ((l, n) ∷ []) in
    let placed : delete_file l n x ≡ record x { deleted_files = new } =
      unfold delete_file in
      ap (λ t. record x { deleted_files = t }) (insert_last (l, n) x.deleted_files ds h) in
    let shape = append_assoc x.deleted_files ((l, n) ∷ []) ds in
    ap (apply_all (deleted_fields ds)) placed
    ∙ apply_deleted ds (record x { deleted_files = new }) (rw shape h)
    ∙ ap (λ t. record x { deleted_files = t }) shape

-- Nothing but the encoded fields of the file has been set.
abbrev pub IsPlain : ℕ × FileMetaData → Type 0
IsPlain (l, f) = f ≡ new_file_meta_data f.number f.file_size f.smallest f.largest

pub apply_new_files :
    (files : List (ℕ × FileMetaData)) (x : VersionEdit)
    → All IsPlain files
    → apply_all (new_file_fields files) x ≡ record x { new_files = x.new_files ++ files }
apply_new_files [] x h = ap (λ t. record x { new_files = t }) (sym (append-nil x.new_files))
apply_new_files ((l, f) ∷ files) x (plain, more) =
    let added : add_file l f.number f.file_size f.smallest f.largest x
        ≡ record x { new_files = x.new_files ++ ((l, f) ∷ []) } =
      unfold add_file in
      ap (λ (t : FileMetaData). record x { new_files = x.new_files ++ ((l, t) ∷ []) })
        (sym plain) in
    ap (apply_all (new_file_fields files)) added
    ∙ apply_new_files files (record x { new_files = x.new_files ++ ((l, f) ∷ []) }) more
    ∙ ap (λ t. record x { new_files = t }) (append_assoc x.new_files ((l, f) ∷ []) files)
