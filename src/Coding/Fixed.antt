-- ===== src/Coding/Fixed.antt =====
-- EncodeFixed32/64, PutFixed32/64 and DecodeFixed32/64 of util/coding.h and coding.cpp.
pub mod Laws
use e_lsm_p.Base.{
  ℕ, zero, suc, ◌+◌, ◌*◌, ◌/◌, ◌%◌, ◌^◌, ◌<◌, bit_or, Bool, true, List, [], ◌∷◌, ◌++◌, get_or, drop,
  if◌then◌else◌,
}

abbrev pub IsU32 : ℕ → Type 0
IsU32 v = v < 2 ^ 32

abbrev pub IsU64 : ℕ → Type 0
IsU64 v = v < 2 ^ 64

abbrev pub IsByte : ℕ → Type 0
IsByte b = b < 256

-- port::kLittleEndian on the x86-64 machines that have SGX.
abbrev pub little_endian : Bool
little_endian = true

-- What `memcpy(buf, &value, n)` copies on a little-endian machine, and what it loads back.
abbrev pub memory_bytes : ℕ → ℕ → List ℕ
memory_bytes zero v = []
memory_bytes (suc n) v = v % 256 ∷ memory_bytes n (v / 256)

abbrev pub memory_value : ℕ → List ℕ → ℕ
memory_value zero p = 0
memory_value (suc n) p = get_or p 0 0 + 256 * memory_value n (drop 1 p)

unfoldable pub encode_fixed32_with : Bool → ℕ → List ℕ
encode_fixed32_with little value =
    if little
    then memory_bytes 4 value
    else value % 256 ∷ value / 2 ^ 8 % 256 ∷ value / 2 ^ 16 % 256 ∷ value / 2 ^ 24 % 256 ∷ []

unfoldable pub encode_fixed64_with : Bool → ℕ → List ℕ
encode_fixed64_with little value =
    if little
    then memory_bytes 8 value
    else value % 256
      ∷ value / 2 ^ 8 % 256
      ∷ value / 2 ^ 16 % 256
      ∷ value / 2 ^ 24 % 256
      ∷ value / 2 ^ 32 % 256
      ∷ value / 2 ^ 40 % 256
      ∷ value / 2 ^ 48 % 256
      ∷ value / 2 ^ 56 % 256
      ∷ []

-- A load reads a fixed number of bytes with no bounds check; a byte past the end reads as 0 here.
unfoldable pub decode_fixed32_with : Bool → List ℕ → ℕ
decode_fixed32_with little ptr =
    if little
    then memory_value 4 ptr
    else bit_or
        (bit_or (bit_or (get_or ptr 0 0) (get_or ptr 1 0 * 2 ^ 8)) (get_or ptr 2 0 * 2 ^ 16))
        (get_or ptr 3 0 * 2 ^ 24)

unfoldable pub decode_fixed64_with : Bool → List ℕ → ℕ
unfolding decode_fixed32_with
decode_fixed64_with little ptr =
    if little
    then memory_value 8 ptr
    else let lo = decode_fixed32_with little ptr in
      let hi = decode_fixed32_with little (drop 4 ptr) in bit_or lo (hi * 2 ^ 32)

unfoldable pub encode_fixed32 : ℕ → List ℕ
unfolding encode_fixed32_with
encode_fixed32 = encode_fixed32_with little_endian

unfoldable pub encode_fixed64 : ℕ → List ℕ
unfolding encode_fixed64_with
encode_fixed64 = encode_fixed64_with little_endian

unfoldable pub decode_fixed32 : List ℕ → ℕ
unfolding decode_fixed32_with
decode_fixed32 = decode_fixed32_with little_endian

unfoldable pub decode_fixed64 : List ℕ → ℕ
unfolding decode_fixed64_with
decode_fixed64 = decode_fixed64_with little_endian

unfoldable pub put_fixed32 : List ℕ → ℕ → List ℕ
unfolding encode_fixed32
put_fixed32 dst value = dst ++ encode_fixed32 value

unfoldable pub put_fixed64 : List ℕ → ℕ → List ℕ
unfolding encode_fixed64
put_fixed64 dst value = dst ++ encode_fixed64 value
