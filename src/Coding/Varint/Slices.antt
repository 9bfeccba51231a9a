-- ===== src/Coding/Varint/Slices.antt =====
-- Length-prefixed strings, and what a successful read takes from any input.
use e_lsm_p.Base.{
  ℕ, ◌%◌, ◌^◌, ◌≡◌, ap, ◌∙◌, some, true, leb, List, [], ◌++◌, arith, length, take-append,
  drop-append, append_assoc, length-append,
}
use e_lsm_p.Coding.Fixed.{IsU32}
use e_lsm_p.Coding.Varint.{
  encode_varint32, put_length_prefixed_slice, split_at_length, get_length_prefixed_slice,
}
use e_lsm_p.Coding.Varint.Decode.{get_varint32-encode}

-- What `put_length_prefixed_slice` appends.
abbrev pub prefixed : List ℕ → List ℕ
prefixed value = encode_varint32 (length value) ++ value

pub put_length_prefixed_slice-prefixed :
    (dst value : List ℕ)
    → IsU32 (length value)
    → put_length_prefixed_slice dst value ≡ dst ++ prefixed value
unfolding put_length_prefixed_slice
put_length_prefixed_slice-prefixed dst value h =
    let fits : length value % 2 ^ 32 ≡ length value = omega arith in
    rw fits (append_assoc dst (encode_varint32 (length value)) value)

split_whole :
    (value rest : List ℕ)
    → split_at_length (some (length value, value ++ rest)) ≡ some (value, rest)
unfolding split_at_length
split_whole value rest =
    let fits : leb (length value) (length (value ++ rest)) ≡ true =
      ground (arith, length-append value rest) in
    rw (fits, take-append value rest, drop-append value rest)

pub get_length_prefixed_slice-prefixed :
    (value rest : List ℕ)
    → IsU32 (length value)
    → get_length_prefixed_slice (prefixed value ++ rest) ≡ some (value, rest)
get_length_prefixed_slice-prefixed value rest h =
    rw (append_assoc (encode_varint32 (length value)) value rest) (
      unfold get_length_prefixed_slice in
      ap split_at_length (get_varint32-encode (length value) (value ++ rest) h)
      ∙ split_whole value rest)

-- A string shorter than 2 ^ 32 that was put behind `[]` is read back, and what follows it is left.
pub get_length_prefixed_slice-put :
    (value rest : List ℕ)
    → IsU32 (length value)
    → get_length_prefixed_slice (put_length_prefixed_slice [] value ++ rest) ≡ some (value, rest)
get_length_prefixed_slice-put value rest h =
    rw (put_length_prefixed_slice-prefixed [] value h)
      (get_length_prefixed_slice-prefixed value rest h)
