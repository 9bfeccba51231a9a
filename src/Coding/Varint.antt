-- ===== src/Coding/Varint.antt =====
-- EncodeVarint32/64, PutVarint32/64, VarintLength, GetVarint32/64 and their pointer forms,
-- PutLengthPrefixedSlice and GetLengthPrefixedSlice of util/coding.h and coding.cpp.
pub mod Encode
pub mod Decode
pub mod Slices
pub mod Reads
use e_lsm_p.Base.{
  ℕ, zero, suc, ◌+◌, ◌*◌, ◌/◌, ◌%◌, ◌^◌, bit_and, bit_or, Bool, true, false, Option, none, some,
  List, [], ◌∷◌, ◌++◌, length, take, drop, ltb, leb, ◌==◌, if◌then◌else◌,
}

unfoldable pub encode_varint32 : ℕ → List ℕ
encode_varint32 v =
    if ltb v (2 ^ 7)
    then v % 256 ∷ []
    else if ltb v (2 ^ 14)
    then bit_or v 128 % 256 ∷ v / 2 ^ 7 % 256 ∷ []
    else if ltb v (2 ^ 21)
    then bit_or v 128 % 256 ∷ bit_or (v / 2 ^ 7) 128 % 256 ∷ v / 2 ^ 14 % 256 ∷ []
    else if ltb v (2 ^ 28)
    then bit_or v 128 % 256
      ∷ bit_or (v / 2 ^ 7) 128 % 256
      ∷ bit_or (v / 2 ^ 14) 128 % 256
      ∷ v / 2 ^ 21 % 256
      ∷ []
    else bit_or v 128 % 256
      ∷ bit_or (v / 2 ^ 7) 128 % 256
      ∷ bit_or (v / 2 ^ 14) 128 % 256
      ∷ bit_or (v / 2 ^ 21) 128 % 256
      ∷ v / 2 ^ 28 % 256
      ∷ []

unfoldable pub put_varint32 : List ℕ → ℕ → List ℕ
unfolding encode_varint32
put_varint32 dst v = dst ++ encode_varint32 v

-- The `while (v >= B)` loop, with the rounds that are left.
unfoldable pub encode_varint64_loop : ℕ → ℕ → List ℕ
encode_varint64_loop zero v = v % 256 ∷ []
encode_varint64_loop (suc rounds) v =
    let more = bit_or (bit_and v 127) 128 % 256 ∷ encode_varint64_loop rounds (v / 2 ^ 7) in
    if leb 128 v then more else v % 256 ∷ []

-- A 64-bit value is below 128 after nine rounds.
unfoldable pub encode_varint64 : ℕ → List ℕ
unfolding encode_varint64_loop
encode_varint64 = encode_varint64_loop 9

unfoldable pub put_varint64 : List ℕ → ℕ → List ℕ
unfolding encode_varint64
put_varint64 dst v = dst ++ encode_varint64 v

unfoldable pub varint_length_loop : ℕ → ℕ → ℕ → ℕ
varint_length_loop zero v len = len
varint_length_loop (suc rounds) v len =
    let more = varint_length_loop rounds (v / 2 ^ 7) (len + 1) in if leb 128 v then more else len

unfoldable pub varint_length : ℕ → ℕ
unfolding varint_length_loop
varint_length v = varint_length_loop 9 v 1

-- The loop that GetVarint32PtrFallback and GetVarint64Ptr share, for a width in bits and the last
-- shift that is read. The list holds the bytes from `p` to `limit`; the result is the value and
-- the bytes from the returned pointer on, or `none` for NULL.
unfoldable pub get_varint_loop : ℕ → ℕ → List ℕ → ℕ → ℕ → Option (ℕ × List ℕ)
get_varint_loop width last [] result shift = none
get_varint_loop width last (byte ∷ p) result shift =
    let more =
      get_varint_loop width last p (bit_or result (bit_and byte 127 * 2 ^ shift % 2 ^ width))
        (shift + 7) in
    if leb shift last
    then (if bit_and byte 128 == 0
        then some (bit_or result (byte * 2 ^ shift % 2 ^ width), p)
        else more)
    else none

unfoldable pub get_varint32_ptr_fallback : List ℕ → Option (ℕ × List ℕ)
unfolding get_varint_loop
get_varint32_ptr_fallback p = get_varint_loop 32 28 p 0 0

-- The fast path for one byte, and the loop for all else.
unfoldable pub get_varint32_ptr : List ℕ → Option (ℕ × List ℕ)
unfolding get_varint32_ptr_fallback
get_varint32_ptr [] = get_varint32_ptr_fallback []
get_varint32_ptr (result ∷ p) =
    if bit_and result 128 == 0 then some (result, p) else get_varint32_ptr_fallback (result ∷ p)

unfoldable pub get_varint64_ptr : List ℕ → Option (ℕ × List ℕ)
unfolding get_varint_loop
get_varint64_ptr p = get_varint_loop 64 63 p 0 0

-- The Slice forms return the value and what is left of the input; `none` stands for `false`.
unfoldable pub get_varint32 : List ℕ → Option (ℕ × List ℕ)
unfolding get_varint32_ptr
get_varint32 input = get_varint32_ptr input

unfoldable pub get_varint64 : List ℕ → Option (ℕ × List ℕ)
unfolding get_varint64_ptr
get_varint64 input = get_varint64_ptr input

-- The size is a size_t, and PutVarint32 takes its low 32 bits.
unfoldable pub put_length_prefixed_slice : List ℕ → List ℕ → List ℕ
unfolding put_varint32
put_length_prefixed_slice dst value = put_varint32 dst (length value % 2 ^ 32) ++ value

unfoldable pub split_at_length : Option (ℕ × List ℕ) → Option (List ℕ × List ℕ)
split_at_length none = none
split_at_length (some (len, input)) =
    if leb len (length input) then some (take len input, drop len input) else none

unfoldable pub get_length_prefixed_slice : List ℕ → Option (List ℕ × List ℕ)
unfolding get_varint32 split_at_length
get_length_prefixed_slice input = split_at_length (get_varint32 input)
