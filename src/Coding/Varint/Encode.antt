-- ===== src/Coding/Varint/Encode.antt =====
-- What the two encoders write, in plain arithmetic.
use e_lsm_p.Base.{
  ℕ, zero, suc, ◌+◌, ◌/◌, ◌%◌, ◌^◌, ◌<◌, ◌≤◌, ◌≡◌, refl, bit_and, bit_or, List, [], ◌∷◌, length,
  All, ltb, arith, if◌then◌else◌, ap, sym, ◌∙◌,
}
use e_lsm_p.Base.Bits.{bit_or_top, bit_and_low7}
use e_lsm_p.Coding.Fixed.{IsByte, IsU32, IsU64}
use e_lsm_p.Coding.Varint.{
  encode_varint32, encode_varint64_loop, encode_varint64, varint_length_loop, varint_length,
}

-- The groups of seven bits of `v`, lowest first, every one but the last with its top bit set.
unfoldable pub groups : ℕ → ℕ → List ℕ
groups zero v = v % 256 ∷ []
groups (suc n) v =
    let rest = groups n (v / 128) in if ltb v 128 then v ∷ [] else (v % 128 + 128) ∷ rest

inner_group : (v : ℕ) → bit_or (bit_and v 127) 128 % 256 ≡ v % 128 + 128
inner_group v = omega (arith, bit_or_top (bit_and v 127), bit_and_low7 v)

pub encode_varint64_loop-groups : (n v : ℕ) → encode_varint64_loop n v ≡ groups n v
unfolding encode_varint64_loop groups
encode_varint64_loop-groups zero v = refl
encode_varint64_loop-groups (suc n) v =
    ground (arith, inner_group v, encode_varint64_loop-groups n (v / 128))

pub encode_varint64-groups : (v : ℕ) → encode_varint64 v ≡ groups 9 v
unfolding encode_varint64
encode_varint64-groups v = encode_varint64_loop-groups 9 v

-- The unrolled 32-bit encoder writes the same groups.
pub encode_varint32-groups : (v : ℕ) → IsU32 v → encode_varint32 v ≡ groups 4 v
unfolding encode_varint32 groups
encode_varint32-groups v h =
    ground (
      arith,
      bit_or_top v,
      bit_or_top (v / 2 ^ 7),
      bit_or_top (v / 2 ^ 14),
      bit_or_top (v / 2 ^ 21),
    )

groups_more : (n v : ℕ) → v < 128 ^ suc n → groups (suc n) v ≡ groups n v
unfolding groups
groups_more zero v h = ground arith
groups_more (suc n) v h = ground (arith, groups_more n (v / 128) (omega arith))

groups_nine : (v : ℕ) → IsU32 v → groups 9 v ≡ groups 4 v
groups_nine v h =
    groups_more 8 v (omega arith)
    ∙ groups_more 7 v (omega arith)
    ∙ groups_more 6 v (omega arith)
    ∙ groups_more 5 v (omega arith)
    ∙ groups_more 4 v (omega arith)

-- The unrolled encoder and the loop write the same bytes for every uint32.
pub encode_varint32-encode_varint64 : (v : ℕ) → IsU32 v → encode_varint32 v ≡ encode_varint64 v
encode_varint32-encode_varint64 v h =
    encode_varint32-groups v h ∙ sym (groups_nine v h) ∙ sym (encode_varint64-groups v)

groups-IsByte : (n v : ℕ) → v < 128 ^ suc n → All IsByte (groups n v)
unfolding groups
groups-IsByte zero v h = omega arith
groups-IsByte (suc n) v h = ground (arith, groups-IsByte n (v / 128) (omega arith))

pub length-groups : (n v : ℕ) → (1 ≤ length (groups n v)) × (length (groups n v) ≤ n + 1)
unfolding groups
length-groups zero v = omega arith
length-groups (suc n) v = ground (arith, length-groups n (v / 128))

varint_length_loop-groups :
    (n v len : ℕ) → varint_length_loop n v len + 1 ≡ len + length (groups n v)
unfolding varint_length_loop groups
varint_length_loop-groups zero v len = omega arith
varint_length_loop-groups (suc n) v len =
    ground (arith, varint_length_loop-groups n (v / 128) (len + 1))

varint_length-groups : (v : ℕ) → varint_length v ≡ length (groups 9 v)
unfolding varint_length
varint_length-groups v = omega (arith, varint_length_loop-groups 9 v 1)

-- `varint_length` is the number of bytes that the 64-bit encoder writes, from 1 to 10 for a uint64,
-- and each of them is a byte; for a uint32 the 32-bit encoder writes as many, at most 5.
pub varint_length-encode :
    (v w : ℕ)
    → IsU64 v
    → IsU32 w
    → (varint_length v ≡ length (encode_varint64 v))
      × (1 ≤ varint_length v)
      × (varint_length v ≤ 10)
      × All IsByte (encode_varint64 v)
      × (varint_length w ≡ length (encode_varint32 w))
      × (varint_length w ≤ 5)
varint_length-encode v w hv hw = (
  rw encode_varint64-groups (varint_length-groups v),
  omega (arith, varint_length-groups v, length-groups 9 v),
  omega (arith, varint_length-groups v, length-groups 9 v),
  rw encode_varint64-groups (groups-IsByte 9 v (omega arith)),
  short,
  omega (arith, short, ap length (encode_varint32-groups w hw), length-groups 4 w),
)
  where
    short : varint_length w ≡ length (encode_varint32 w)
    short =
        varint_length-groups w
        ∙ ap length (groups_nine w hw)
        ∙ ap length (sym (encode_varint32-groups w hw))
