-- ===== src/Coding/Varint/Decode.antt =====
-- The decoders read back what the encoders wrote.
use e_lsm_p.Base.{
  ℕ, zero, suc, ◌+◌, ◌*◌, ◌/◌, ◌%◌, ◌^◌, ◌<◌, ◌≤◌, ◌≡◌, refl, ap, ◌∙◌, bit_and, bit_or, some, true,
  false, ltb, leb, ◌==◌, ltb→lt, Bool-cases, inl, inr, List, [], ◌∷◌, ◌++◌, arith, All,
}
use e_lsm_p.Base.Bits.{zero-bit_or, bit_or_disjoint, bit_and_low7, bit_and_top}
use e_lsm_p.Coding.Fixed.{IsByte, IsU32, IsU64}
use e_lsm_p.Coding.Varint.{
  encode_varint32, encode_varint64, get_varint_loop, get_varint32_ptr_fallback, get_varint32_ptr,
  get_varint32, get_varint64,
}
use e_lsm_p.Coding.Varint.Encode.{groups, encode_varint32-groups, encode_varint64-groups}
use native.Mathlib.Nat.{mod-eq_of_lt}
use native.Mathlib.Numerals.{towards_suc}

module _ (width last : ℕ) where
  -- What a round adds to the result, while it fits the width.
  add_bits :
      (acc w shift : ℕ)
      → acc < 2 ^ shift
      → w * 2 ^ shift < 2 ^ width
      → bit_or acc (w * 2 ^ shift % 2 ^ width) ≡ acc + w * 2 ^ shift
  add_bits acc w shift ha hw =
      ap (λ (t : ℕ). bit_or acc t) (mod-eq_of_lt hw) ∙ bit_or_disjoint shift acc w ha

  last_round :
      (w acc shift : ℕ) (rest : List ℕ)
      → w < 128
      → shift ≤ last
      → acc < 2 ^ shift
      → acc + w * 2 ^ shift < 2 ^ width
      → get_varint_loop width last (w ∷ rest) acc shift ≡ some (acc + w * 2 ^ shift, rest)
  unfolding get_varint_loop
  last_round w acc shift rest hw hs ha fits =
      ground (arith, bit_and_top w, add_bits acc w shift ha (omega arith))

  inner_round :
      (g acc shift : ℕ) (rest : List ℕ)
      → g < 128
      → shift ≤ last
      → acc < 2 ^ shift
      → acc + g * 2 ^ shift < 2 ^ width
      → get_varint_loop width last ((g + 128) ∷ rest) acc shift
        ≡ get_varint_loop width last rest (acc + g * 2 ^ shift) (shift + 7)
  unfolding get_varint_loop
  inner_round g acc shift rest hg hs ha fits =
      let within : leb shift last ≡ true = ground arith in
      let more : (bit_and (g + 128) 128 == 0) ≡ false = ground (arith, bit_and_top (g + 128)) in
      let low : bit_and (g + 128) 127 ≡ g = omega (arith, bit_and_low7 (g + 128)) in
      rw (within, more, low, add_bits acc g shift ha (omega arith))

  pow_seven : (s : ℕ) → 2 ^ (s + 7) ≡ 128 * 2 ^ s
  pow_seven s = simp towards_suc (omega arith)

  -- The lowest group and the rest, both shifted.
  split_low : (v n : ℕ) → v * 2 ^ n ≡ v % 128 * 2 ^ n + v / 128 * 2 ^ (n + 7)
  split_low v n =
      let groups_of : v ≡ v / 128 * 128 + v % 128 = omega arith in
      let scaled = ap (λ (k : ℕ). v / 128 * k) (pow_seven n) in
      omega (arith, scaled, ap (λ (k : ℕ). k * 2 ^ n) groups_of)

  room : (w acc shift : ℕ) → acc < 2 ^ shift → acc + w % 128 * 2 ^ shift < 2 ^ (shift + 7)
  room w acc shift h =
      let low : w % 128 ≤ 127 = omega arith in
      let scaled : w % 128 * 2 ^ shift ≤ 127 * 2 ^ shift = grind arith in
      omega (arith, pow_seven shift)

  get_varint_loop-groups :
      (n w acc shift : ℕ) (rest : List ℕ)
      → w < 128 ^ suc n
      → shift + 7 * n ≤ last
      → acc < 2 ^ shift
      → acc + w * 2 ^ shift < 2 ^ width
      → get_varint_loop width last (groups n w ++ rest) acc shift ≡ some (acc + w * 2 ^ shift, rest)
  unfolding groups
  get_varint_loop-groups zero w acc shift rest hw hs ha fits =
      let byte : w % 256 ≡ w = omega arith in
      rw byte (last_round w acc shift rest (omega arith) (omega arith) ha fits)
  get_varint_loop-groups (suc n) w acc shift rest hw hs ha fits = elim (Bool-cases (ltb w 128)) [
    | inl less ↦ rw less (last_round w acc shift rest (ltb→lt w 128 less) (omega arith) ha fits)
    | inr more ↦ rw more (
        inner_round (w % 128) acc shift (groups n (w / 128) ++ rest) (omega arith) (omega arith) ha
          (omega (arith, split_low w shift))
        ∙ get_varint_loop-groups n (w / 128) (acc + w % 128 * 2 ^ shift) (shift + 7) rest
            (omega arith) (omega arith) (room w acc shift ha) (omega (arith, split_low w shift))
        ∙ ap (λ (t : ℕ). some (t, rest)) (omega (arith, split_low w shift)))
  ]

fallback-groups :
    (v : ℕ) (rest : List ℕ)
    → IsU32 v
    → get_varint32_ptr_fallback (groups 4 v ++ rest) ≡ some (v, rest)
unfolding get_varint32_ptr_fallback
fallback-groups v rest h =
    get_varint_loop-groups 32 28 4 v 0 0 rest (omega arith) (omega arith) (omega arith)
      (omega arith)
    ∙ ap (λ (t : ℕ). some (t, rest)) (omega arith)

one_byte : (b : ℕ) → IsByte b → bit_or 0 (b * 2 ^ 0 % 2 ^ 32) ≡ b
one_byte b h = zero-bit_or _ ∙ omega arith

-- The fast path of `get_varint32_ptr` answers as the loop does, on every buffer of bytes.
pub get_varint32_ptr-fallback :
    (p : List ℕ) → All IsByte p → get_varint32_ptr p ≡ get_varint32_ptr_fallback p
unfolding get_varint32_ptr
get_varint32_ptr-fallback [] h = refl
get_varint32_ptr-fallback (b ∷ p) (hb, hp) = elim (Bool-cases (bit_and b 128 == 0)) [
  | inl stop ↦ rw (stop, one_byte b hb)
  | inr more ↦ rw more
]

get_varint32_head :
    (b : ℕ) (p : List ℕ) → IsByte b → get_varint32_ptr (b ∷ p) ≡ get_varint32_ptr_fallback (b ∷ p)
unfolding get_varint32_ptr
get_varint32_head b p hb = elim (Bool-cases (bit_and b 128 == 0)) [
  | inl stop ↦ rw (stop, one_byte b hb)
  | inr more ↦ rw more
]

groups_head :
    (v : ℕ) (rest : List ℕ)
    → IsU32 v
    → get_varint32_ptr (groups 4 v ++ rest) ≡ get_varint32_ptr_fallback (groups 4 v ++ rest)
unfolding groups
groups_head v rest h = elim (Bool-cases (ltb v 128)) [
  | inl less ↦ rw less (get_varint32_head v rest (omega (arith, ltb→lt v 128 less)))
  | inr more ↦ rw more (get_varint32_head _ _ (omega arith))
]

-- A uint32 that was written by the 32-bit encoder is read back, and what follows it is left.
pub get_varint32-encode :
    (v : ℕ) (rest : List ℕ) → IsU32 v → get_varint32 (encode_varint32 v ++ rest) ≡ some (v, rest)
get_varint32-encode v rest h =
    rw (encode_varint32-groups v h)
      (unfold get_varint32 in groups_head v rest h ∙ fallback-groups v rest h)

-- A uint64 that was written by the 64-bit encoder is read back, and what follows it is left.
pub get_varint64-encode :
    (v : ℕ) (rest : List ℕ) → IsU64 v → get_varint64 (encode_varint64 v ++ rest) ≡ some (v, rest)
get_varint64-encode v rest h = rw (encode_varint64-groups v) (
    unfold get_varint64 in
    get_varint_loop-groups 64 63 9 v 0 0 rest (omega arith) (omega arith) (omega arith)
      (omega arith)
    ∙ ap (λ (t : ℕ). some (t, rest)) (omega arith))

-- A uint32 that the 32-bit encoder wrote, and a uint64 that the 64-bit encoder wrote, are read back by the
-- readers of that width, and what follows them is left.
pub varint_round_trip :
    (v w : ℕ) (rest : List ℕ)
    → IsU32 v
    → IsU64 w
    → (get_varint32 (encode_varint32 v ++ rest) ≡ some (v, rest))
      × (get_varint64 (encode_varint64 w ++ rest) ≡ some (w, rest))
varint_round_trip v w rest h k = (get_varint32-encode v rest h, get_varint64-encode w rest k)
