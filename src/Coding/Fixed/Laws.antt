-- ===== src/Coding/Fixed/Laws.antt =====
-- Round trips of the fixed-width integers, and their independence of the machine's byte order.
use e_lsm_p.Base.{
  ℕ, zero, suc, ◌+◌, ◌*◌, ◌/◌, ◌%◌, ◌^◌, ◌<◌, ◌≡◌, refl, ap, ◌∙◌, bit_or, true, false, List, [],
  ◌∷◌, ◌++◌, length, All, arith,
}
use e_lsm_p.Base.Bits.{bit_or_disjoint}
use native.Mathlib.Nat.{pow-suc}
use e_lsm_p.Coding.Fixed.{
  IsU32, IsU64, IsByte, encode_fixed32_with, encode_fixed64_with, decode_fixed32_with,
  encode_fixed32, encode_fixed64, decode_fixed32, decode_fixed64, memory_bytes, memory_value,
}

-- The bytes written are the same on machines of either byte order.
pub encode_fixed_neutral :
    (v : ℕ)
    → (encode_fixed32_with false v ≡ encode_fixed32_with true v)
      × (encode_fixed64_with false v ≡ encode_fixed64_with true v)
unfolding encode_fixed32_with encode_fixed64_with
encode_fixed_neutral v = (ground arith, ground arith)

four_bytes :
    (a b c d : ℕ) (rest : List ℕ)
    → IsByte a
    → IsByte b
    → IsByte c
    → decode_fixed32_with false (a ∷ b ∷ c ∷ d ∷ rest) ≡ a + b * 2 ^ 8 + c * 2 ^ 16 + d * 2 ^ 24
unfolding decode_fixed32_with
four_bytes a b c d rest ha hb hc =
    ap (λ (t : ℕ). bit_or (bit_or t (c * 2 ^ 16)) (d * 2 ^ 24))
      (bit_or_disjoint 8 a b (omega arith))
    ∙ ap (λ (t : ℕ). bit_or t (d * 2 ^ 24)) (bit_or_disjoint 16 (a + b * 2 ^ 8) c (omega arith))
    ∙ bit_or_disjoint 24 (a + b * 2 ^ 8 + c * 2 ^ 16) d (omega arith)

-- A load of four bytes gives the same number on machines of either byte order.
pub decode_fixed32_neutral :
    (a b c d : ℕ) (rest : List ℕ)
    → IsByte a
    → IsByte b
    → IsByte c
    → decode_fixed32_with false (a ∷ b ∷ c ∷ d ∷ rest)
      ≡ decode_fixed32_with true (a ∷ b ∷ c ∷ d ∷ rest)
unfolding decode_fixed32_with
decode_fixed32_neutral a b c d rest ha hb hc = four_bytes a b c d rest ha hb hc ∙ omega arith

pub decode_fixed32-encode :
    (v : ℕ) (rest : List ℕ) → IsU32 v → decode_fixed32 (encode_fixed32 v ++ rest) ≡ v
unfolding decode_fixed32 encode_fixed32
decode_fixed32-encode v rest h = omega arith

pub decode_fixed64-encode :
    (v : ℕ) (rest : List ℕ) → IsU64 v → decode_fixed64 (encode_fixed64 v ++ rest) ≡ v
unfolding decode_fixed64 encode_fixed64
decode_fixed64-encode v rest h = omega arith

memory_bytes-IsByte : (n v : ℕ) → All IsByte (memory_bytes n v)
memory_bytes-IsByte zero v = tt
memory_bytes-IsByte (suc n) v = (omega arith, memory_bytes-IsByte n (v / 256))

-- A fixed-width integer takes 4 or 8 bytes, each of them a byte, and reads back as it was,
-- whatever follows it.
pub fixed_round_trip :
    (v w : ℕ) (rest : List ℕ)
    → IsU32 v
    → IsU64 w
    → (decode_fixed32 (encode_fixed32 v ++ rest) ≡ v)
      × (decode_fixed64 (encode_fixed64 w ++ rest) ≡ w)
      × (length (encode_fixed32 v) ≡ 4)
      × (length (encode_fixed64 w) ≡ 8)
      × All IsByte (encode_fixed32 v)
      × All IsByte (encode_fixed64 w)
fixed_round_trip v w rest hv hw = (
  decode_fixed32-encode v rest hv,
  decode_fixed64-encode w rest hw,
  (unfold encode_fixed32 in refl),
  (unfold encode_fixed64 in refl),
  (unfold encode_fixed32 in memory_bytes-IsByte 4 v),
  (unfold encode_fixed64 in memory_bytes-IsByte 8 w),
)

pub length-encode_fixed64 : (v : ℕ) → length (encode_fixed64 v) ≡ 8
unfolding encode_fixed64
length-encode_fixed64 v = refl

pub length-encode_fixed32 : (v : ℕ) → length (encode_fixed32 v) ≡ 4
unfolding encode_fixed32
length-encode_fixed32 v = refl

memory_bytes-memory_value :
    (n : ℕ) (p : List ℕ) → length p ≡ n → All IsByte p → memory_bytes n (memory_value n p) ≡ p
memory_bytes-memory_value zero [] h bytes = refl
memory_bytes-memory_value zero (b ∷ p) h bytes = absurd (omega arith)
memory_bytes-memory_value (suc n) [] h bytes = absurd (omega arith)
memory_bytes-memory_value (suc n) (b ∷ p) h (hb, hp) =
    let low : (b + 256 * memory_value n p) % 256 ≡ b = omega arith in
    let high : (b + 256 * memory_value n p) / 256 ≡ memory_value n p = omega arith in
    rw (low, high) (ap (λ (t : List ℕ). b ∷ t) (memory_bytes-memory_value n p (omega arith) hp))

-- Any eight bytes are the encoding of the number that they hold.
pub encode_fixed64-decode :
    (p : List ℕ) → length p ≡ 8 → All IsByte p → encode_fixed64 (decode_fixed64 p) ≡ p
unfolding encode_fixed64 decode_fixed64
encode_fixed64-decode p h bytes = memory_bytes-memory_value 8 p h bytes

memory_value_bound : (n : ℕ) (p : List ℕ) → length p ≡ n → All IsByte p → memory_value n p < 256 ^ n
memory_value_bound zero p h bytes = omega arith
memory_value_bound (suc n) [] h bytes = absurd (omega arith)
memory_value_bound (suc n) (b ∷ p) h (hb, hp) =
    omega (arith, memory_value_bound n p (omega arith) hp, pow-suc 256 n)

pub decode_fixed64-IsU64 : (p : List ℕ) → length p ≡ 8 → All IsByte p → IsU64 (decode_fixed64 p)
unfolding decode_fixed64
decode_fixed64-IsU64 p h bytes = memory_value_bound 8 p h bytes
