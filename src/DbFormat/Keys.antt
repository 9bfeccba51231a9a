-- ===== src/DbFormat/Keys.antt =====
-- Round trips of internal keys.
use e_lsm_p.Base.{
  ℕ, zero, suc, ◌+◌, ◌-◌, ◌*◌, ◌/◌, ◌%◌, ◌^◌, ◌<◌, ◌≤◌, ◌≡◌, refl, sym, ap, ◌∙◌, bit_or, Option,
  none, some, List, [], ◌++◌, length, drop, ltb, arith, All, append_assoc, append-nil,
  length-append, take-append, drop-append, false, Bool-cases, inl, inr, length-drop, All-drop,
  take-append-drop,
}
use e_lsm_p.Base.Bits.{bit_or_disjoint_left}
use e_lsm_p.Coding.Fixed.{IsByte, IsU64, encode_fixed64, put_fixed64, decode_fixed64}
use e_lsm_p.Coding.Fixed.Laws.{
  encode_fixed64-decode, decode_fixed64-IsU64, decode_fixed64-encode, length-encode_fixed64,
}
use e_lsm_p.DbFormat.{
  ValueType, type_deletion, type_value, type_code, max_sequence_number, ParsedInternalKey,
  pack_sequence_and_type, append_internal_key, extract_user_key, extract_tag, parse_internal_key,
  parsed_with, type_of_code,
}

abbrev pub IsSequence : ℕ → Type 0
IsSequence s = s ≤ max_sequence_number

-- The tag of a sequence number and a type, as a number.
pub pack_sequence_and_type-sum :
    (s : ℕ) (t : ValueType) → IsSequence s → pack_sequence_and_type s t ≡ s * 256 + type_code t
unfolding pack_sequence_and_type
pack_sequence_and_type-sum s t h =
    let fits : s * 2 ^ 8 % 2 ^ 64 ≡ s * 2 ^ 8 = omega arith in
    ap (λ (n : ℕ). bit_or n (type_code t)) fits
    ∙ bit_or_disjoint_left 8 (type_code t) s (code_bound t)
  where
    code_bound : (t : ValueType) → type_code t < 256
    code_bound type_deletion = omega arith
    code_bound type_value = omega arith

-- A key followed by eight bytes comes apart again.
pub extract_user_key-append : (u tail : List ℕ) → length tail ≡ 8 → extract_user_key (u ++ tail) ≡ u
unfolding extract_user_key
extract_user_key-append u tail h =
    let size : length (u ++ tail) - 8 ≡ length u = omega (arith, length-append u tail) in
    rw size (take-append u tail)

pub extract_tag-append : (u : List ℕ) (n : ℕ) → IsU64 n → extract_tag (u ++ encode_fixed64 n) ≡ n
unfolding extract_tag
extract_tag-append u n h =
    let size : length (u ++ encode_fixed64 n) - 8 ≡ length u =
      omega (arith, length-append u (encode_fixed64 n), length-encode_fixed64 n) in
    ap (λ (k : ℕ). decode_fixed64 (drop k (u ++ encode_fixed64 n))) size
    ∙ ap decode_fixed64 (drop-append u (encode_fixed64 n))
    ∙ ap decode_fixed64 (sym (append-nil (encode_fixed64 n)))
    ∙ decode_fixed64-encode n [] h

tag_bound : (s : ℕ) (t : ValueType) → IsSequence s → IsU64 (pack_sequence_and_type s t)
tag_bound s type_deletion h = omega (arith, pack_sequence_and_type-sum s type_deletion h)
tag_bound s type_value h = omega (arith, pack_sequence_and_type-sum s type_value h)

pub append_internal_key-encode :
    (result : List ℕ) (k : ParsedInternalKey)
    → append_internal_key result k
      ≡ result ++ (k.user_key ++ encode_fixed64 (pack_sequence_and_type k.sequence k.type))
unfolding append_internal_key put_fixed64
append_internal_key-encode result k = append_assoc result k.user_key _

pub extract-append_internal_key :
    (k : ParsedInternalKey)
    → IsSequence k.sequence
    → (extract_user_key (append_internal_key [] k) ≡ k.user_key)
      × (extract_tag (append_internal_key [] k) ≡ k.sequence * 256 + type_code k.type)
      × (length (append_internal_key [] k) ≡ length k.user_key + 8)
extract-append_internal_key k h =
    let tag = pack_sequence_and_type k.sequence k.type in
    rw (append_internal_key-encode [] k) (
      extract_user_key-append k.user_key (encode_fixed64 tag) (length-encode_fixed64 tag),
      extract_tag-append k.user_key tag (tag_bound k.sequence k.type h)
          ∙ pack_sequence_and_type-sum k.sequence k.type h,
      omega (arith, length-append k.user_key (encode_fixed64 tag), length-encode_fixed64 tag),
    )

pub tag_parts :
    (s : ℕ) (t : ValueType)
    → ((s * 256 + type_code t) / 2 ^ 8 ≡ s)
      × (type_of_code ((s * 256 + type_code t) % 256) ≡ some t)
tag_parts s type_deletion =
    (omega arith, ap type_of_code (let e : (s * 256 + 0) % 256 ≡ 0 = omega arith in e))
tag_parts s type_value =
    (omega arith, ap type_of_code (let e : (s * 256 + 1) % 256 ≡ 1 = omega arith in e))

-- An internal key that was written with a sequence number in range is parsed as it was.
pub parse_internal_key-append :
    (k : ParsedInternalKey)
    → IsSequence k.sequence
    → parse_internal_key (append_internal_key [] k) ≡ some k
unfolding parse_internal_key
parse_internal_key-append k h =
    let (user, tag, size) = extract-append_internal_key k h in
    let (high, low) = tag_parts k.sequence k.type in
    let long : ltb (length (append_internal_key [] k)) 8 ≡ false = ground arith in
    rw (long, user, tag, high, low)

code_of_type : (c : ℕ) (t : ValueType) → type_of_code c ≡ some t → type_code t ≡ c
code_of_type zero t h = ground arith
code_of_type (suc zero) t h = ground arith
code_of_type (suc (suc c)) t h = cc

parsed_parts :
    (u : List ℕ) (s : ℕ) (o : Option ValueType) (k : ParsedInternalKey)
    → parsed_with u s o ≡ some k
    → (k.user_key ≡ u) × (k.sequence ≡ s) × (o ≡ some k.type)
parsed_parts u s none k e = cc
parsed_parts u s (some t) k e = ground arith

parse_parts :
    (bytes : List ℕ) (k : ParsedInternalKey)
    → parse_internal_key bytes ≡ some k
    → (8 ≤ length bytes)
      × (k.user_key ≡ extract_user_key bytes)
      × (k.sequence ≡ extract_tag bytes / 2 ^ 8)
      × (type_code k.type ≡ extract_tag bytes % 256)
unfolding parse_internal_key
parse_parts bytes k e = elim (Bool-cases (ltb (length bytes) 8)) [
  | inl short ↦
      let bad : ◌≡◌ {A = Option ParsedInternalKey} none (some k) = rw short at e in
      absurd (let no_way : ⊥ = cc in no_way)
  | inr long ↦
      let (u, s, t) =
        parsed_parts (extract_user_key bytes) (extract_tag bytes / 2 ^ 8)
          (type_of_code (extract_tag bytes % 256)) k (rw long at e) in
      (ground arith, u, s, code_of_type (extract_tag bytes % 256) k.type t)
]

-- Whatever bytes parse as an internal key are the bytes that the parsed key is written as.
pub append-parse_internal_key :
    (bytes : List ℕ) (k : ParsedInternalKey)
    → All IsByte bytes
    → parse_internal_key bytes ≡ some k
    → (append_internal_key [] k ≡ bytes) × IsSequence k.sequence
append-parse_internal_key bytes k h e =
    let (long, u, s, t) = parse_parts bytes k e in
    let cut = length bytes - 8 in
    let tail = drop cut bytes in
    let eight : length tail ≡ 8 = omega (arith, length-drop cut bytes) in
    let tail_bytes = All-drop IsByte cut bytes h in
    let whole : extract_tag bytes ≡ decode_fixed64 tail = (unfold extract_tag in refl) in
    let bound : IsU64 (extract_tag bytes) =
      omega (arith, whole, decode_fixed64-IsU64 tail eight tail_bytes) in
    let in_range : IsSequence k.sequence = omega arith in
    let tag : pack_sequence_and_type k.sequence k.type ≡ decode_fixed64 tail =
      omega (arith, pack_sequence_and_type-sum k.sequence k.type in_range) in
    (
      append_internal_key-encode [] k
          ∙ ap (λ (n : ℕ). k.user_key ++ encode_fixed64 n) tag
          ∙ ap (λ (p : List ℕ). k.user_key ++ p) (encode_fixed64-decode tail eight tail_bytes)
          ∙ ap (λ (p : List ℕ). p ++ tail) u
          ∙ (unfold extract_user_key in take-append-drop cut bytes),
      in_range,
    )

-- An internal key with a sequence number in range is parsed as it was written, and whatever bytes parse as an
-- internal key are those that the parsed key is written as, its sequence number in range.
pub internal_key_round_trip :
    (k : ParsedInternalKey) (bytes : List ℕ) (parsed : ParsedInternalKey)
    → IsSequence k.sequence
    → All IsByte bytes
    → parse_internal_key bytes ≡ some parsed
    → (parse_internal_key (append_internal_key [] k) ≡ some k)
      × (append_internal_key [] parsed ≡ bytes)
      × IsSequence parsed.sequence
internal_key_round_trip k bytes parsed in_range are_bytes h =
    let (same, small) = append-parse_internal_key bytes parsed are_bytes h in
    (parse_internal_key-append k in_range, same, small)
