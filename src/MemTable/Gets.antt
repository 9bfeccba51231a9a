-- ===== src/MemTable/Gets.antt =====
-- MemTable::Get on an entry that MemTable::Add wrote.
use e_lsm_p.Base.{
  ℕ, ◌+◌, ◌-◌, ◌*◌, ◌%◌, ◌^◌, ◌<◌, ◌≡◌, refl, sym, ap, ◌∙◌, bit_or, some, List, [], ◌++◌, length,
  take, drop, arith, append_assoc, append-nil, length-append, take-append, drop-append,
}
use e_lsm_p.Coding.Fixed.{IsU32, encode_fixed64, decode_fixed64}
use e_lsm_p.Coding.Fixed.Laws.{decode_fixed64-encode, length-encode_fixed64}
use e_lsm_p.Coding.Varint.{encode_varint32, get_varint32_ptr, get_varint32}
use e_lsm_p.Coding.Varint.Decode.{get_varint32-encode}
use e_lsm_p.Comparator.{Comparator}
use e_lsm_p.DbFormat.{ValueType, type_value, type_deletion, type_code, pack_sequence_and_type}
use e_lsm_p.DbFormat.Keys.{IsSequence, pack_sequence_and_type-sum}
use e_lsm_p.MemTable.{
  encode_entry, Answer, found, deleted, by_tag_type, if_same, get_parsed, get_entry,
}
use e_lsm_p.Status.{not_found}

get_varint32_ptr-encode :
    (v : ℕ) (rest : List ℕ)
    → IsU32 v
    → get_varint32_ptr (encode_varint32 v ++ rest) ≡ some (v, rest)
get_varint32_ptr-encode v rest h = (unfold get_varint32 in get_varint32-encode v rest h)

code_bound : (t : ValueType) → type_code t < 256
code_bound type_value = omega arith
code_bound type_deletion = omega arith

-- What a lookup of its user key should make of a version.
abbrev pub answer_of : ValueType → List ℕ → Answer
answer_of type_value value = found value
answer_of type_deletion value = deleted (not_found [] [])

module _ (user : Comparator) (s : ℕ) (type : ValueType) (key value wanted : List ℕ)
    (in_range : IsSequence s) (key_fits : IsU32 (length key + 8))
    (value_fits : IsU32 (length value)) where
  tag : ℕ
  tag = bit_or (s * 2 ^ 8 % 2 ^ 64) (type_code type)

  tag_sum : tag ≡ s * 256 + type_code type
  unfolding tag
  tag_sum = (unfold pack_sequence_and_type in pack_sequence_and_type-sum s type in_range)

  sized : List ℕ
  sized = encode_varint32 (length value) ++ value

  behind : List ℕ
  behind = encode_fixed64 tag ++ sized

  entry_parts :
      get_varint32_ptr (encode_entry s type key value) ≡ some (length key + 8, key ++ behind)
  unfolding encode_entry behind sized tag
  entry_parts =
      let low : (length key + 8) % 2 ^ 32 ≡ length key + 8 = omega arith in
      let low' : length value % 2 ^ 32 ≡ length value = omega arith in
      rw (low, low') (get_varint32_ptr-encode (length key + 8) _ key_fits)

  value_part : get_varint32_ptr sized ≡ some (length value, value)
  unfolding sized
  value_part = get_varint32_ptr-encode (length value) value value_fits

  by_type : by_tag_type (tag % 256) sized ≡ answer_of type value
  by_type =
      let bound : type_code type ≡ tag % 256 = omega (arith, tag_sum, code_bound type) in
      ap (λ (n : ℕ). by_tag_type n sized) (sym bound) ∙ by_code type value_part
    where
      by_code :
          (t : ValueType)
          → get_varint32_ptr sized ≡ some (length value, value)
          → by_tag_type (type_code t) sized ≡ answer_of t value
      by_code type_value e =
          rw e (ap found (ap (take (length value)) (sym (append-nil value)) ∙ take-append value []))
      by_code type_deletion e = refl

  -- At an entry that Add wrote, Get answers with the version if the comparator takes its user key as
  -- equal to the wanted one: its value, or the status NotFound for a deletion; else it answers false.
  pub get_entry-encode_entry :
      get_entry user wanted (some (encode_entry s type key value))
      ≡ if_same (user.compare key wanted) (answer_of type value)
  unfolding get_entry get_parsed behind
  get_entry-encode_entry =
      let size : length key + 8 - 8 ≡ length key = omega arith in
      let tag_read : decode_fixed64 (drop (length key) (key ++ behind)) ≡ tag =
        ap decode_fixed64 (drop-append key (encode_fixed64 tag ++ sized))
        ∙ decode_fixed64-encode tag sized (omega (arith, tag_sum, code_bound type)) in
      let rest_read : drop (length key + 8) (key ++ behind) ≡ sized =
        ap (λ (n : ℕ). drop n (key ++ (encode_fixed64 tag ++ sized)))
          (omega (arith, length-append key (encode_fixed64 tag), length-encode_fixed64 tag))
        ∙ (ap (drop (length (key ++ encode_fixed64 tag)))
              (sym (append_assoc key (encode_fixed64 tag) sized))
            ∙ drop-append (key ++ encode_fixed64 tag) sized) in
      rw
        (
          entry_parts,
          size,
          take-append key (encode_fixed64 tag ++ sized),
          tag_read,
          rest_read,
          by_type,
        )
        refl
