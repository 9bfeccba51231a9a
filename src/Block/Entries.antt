-- ===== src/Block/Entries.antt =====
-- One entry of a block, of Enclave/leveldb/table/block_builder.cpp, is read back by DecodeEntry of
-- block.cpp.
use e_lsm_p.Base.{
  ℕ, zero, suc, ◌/◌, ◌^◌, ◌≤◌, ◌<◌, ◌≡◌, refl, ap, ◌∙◌, bit_or, some, List, [], ◌∷◌, ◌++◌, length,
  drop, ltb, arith, append_assoc, length-append, Bool-cases, inl, inr, ltb→lt,
}
use e_lsm_p.Base.Bits.{bit_or_step, bit_and_top}
use e_lsm_p.Coding.Fixed.{IsU32}
use e_lsm_p.Coding.Varint.{encode_varint32, get_varint32_ptr, get_varint32}
use e_lsm_p.Coding.Varint.Decode.{get_varint32-encode}
use e_lsm_p.Coding.Varint.Encode.{varint_length-encode}
use e_lsm_p.Block.{checked, first, decode_entry}

bit_or_left_fuel : (n a b : ℕ) → a ≤ n → a ≤ bit_or a b
bit_or_left_fuel n zero b h = omega arith
bit_or_left_fuel zero (suc a) b h = absurd (omega arith)
bit_or_left_fuel (suc n) (suc a) b h =
    omega (arith, bit_or_step (suc a) b, bit_or_left_fuel n (suc a / 2) (b / 2) (omega arith))

bit_or_left : (a b : ℕ) → a ≤ bit_or a b
bit_or_left a b = bit_or_left_fuel a a b (omega arith)

bit_or_right_fuel : (n a b : ℕ) → b ≤ n → b ≤ bit_or a b
bit_or_right_fuel n a zero h = omega arith
bit_or_right_fuel zero a (suc b) h = absurd (omega arith)
bit_or_right_fuel (suc n) a (suc b) h =
    omega (arith, bit_or_step a (suc b), bit_or_right_fuel n (a / 2) (suc b / 2) (omega arith))

bit_or_right : (a b : ℕ) → b ≤ bit_or a b
bit_or_right a b = bit_or_right_fuel b a b (omega arith)

one_byte : (a : ℕ) (p : List ℕ) → a < 128 → get_varint32_ptr (a ∷ p) ≡ some (a, p)
unfolding get_varint32_ptr
one_byte a p h = ground (arith, bit_and_top a)

-- The fast path answers as the three reads do.
decode_entry-first : (p : List ℕ) → 3 ≤ length p → decode_entry p ≡ first (get_varint32_ptr p)
unfolding decode_entry
decode_entry-first [] h = absurd (omega arith)
decode_entry-first (a ∷ []) h = absurd (omega arith)
decode_entry-first (a ∷ b ∷ []) h = absurd (omega arith)
decode_entry-first (a ∷ b ∷ c ∷ p) h = elim (Bool-cases (ltb (bit_or (bit_or a b) c) 128)) [
  | inl small ↦
      let bound = ltb→lt (bit_or (bit_or a b) c) 128 small in
      let ab : bit_or a b < 128 = omega (arith, bit_or_left (bit_or a b) c) in
      rw
        (
          small,
          one_byte a (b ∷ c ∷ p) (omega (arith, bit_or_left a b)),
          one_byte b (c ∷ p) (omega (arith, bit_or_right a b)),
          one_byte c p (omega (arith, bit_or_right (bit_or a b) c)),
        )
        refl
  | inr large ↦ rw large refl
]

-- The bytes of an entry.
abbrev pub entry_bytes : ℕ → List ℕ → List ℕ → List ℕ
entry_bytes shared key value =
    encode_varint32 shared
    ++ (encode_varint32 (length (drop shared key))
        ++ (encode_varint32 (length value) ++ (drop shared key ++ value)))

pub encode_varint32_some : (v : ℕ) → IsU32 v → 1 ≤ length (encode_varint32 v)
encode_varint32_some v h =
    let (_, _, _, _, e, bound) = varint_length-encode v v (omega arith) h in
    let (_, low, _, _, _, _) = varint_length-encode v v (omega arith) h in omega arith

get_varint32_ptr-encode :
    (v : ℕ) (rest : List ℕ)
    → IsU32 v
    → get_varint32_ptr (encode_varint32 v ++ rest) ≡ some (v, rest)
get_varint32_ptr-encode v rest h = (unfold get_varint32 in get_varint32-encode v rest h)

checked_fits :
    (shared : ℕ) (delta value rest : List ℕ)
    → length (delta ++ (value ++ rest)) < 2 ^ 32
    → checked shared (length delta) (length value) (delta ++ (value ++ rest))
      ≡ some (shared, length delta, length value, delta ++ (value ++ rest))
checked_fits shared delta value rest h =
    let size = length-append delta (value ++ rest) in
    let size' = length-append value rest in ground arith

module _ (shared : ℕ) (key value rest : List ℕ) (fits : IsU32 shared)
    (all : length (drop shared key ++ (value ++ rest)) < 2 ^ 32) where
  delta : List ℕ
  delta = drop shared key

  tail : List ℕ
  tail = delta ++ (value ++ rest)

  sizes : List ℕ
  sizes =
      encode_varint32 shared
      ++ (encode_varint32 (length delta) ++ (encode_varint32 (length value) ++ tail))

  entry_bytes-sizes : entry_bytes shared key value ++ rest ≡ sizes
  unfolding sizes tail delta
  entry_bytes-sizes =
      append_assoc (encode_varint32 shared)
        (encode_varint32 (length (drop shared key))
          ++ (encode_varint32 (length value) ++ (drop shared key ++ value)))
        rest
      ∙ ap (λ t. encode_varint32 shared ++ t)
          (append_assoc (encode_varint32 (length (drop shared key)))
              (encode_varint32 (length value) ++ (drop shared key ++ value)) rest
            ∙ ap (λ t. encode_varint32 (length (drop shared key)) ++ t)
                (append_assoc (encode_varint32 (length value)) (drop shared key ++ value) rest
                  ∙ ap (λ t. encode_varint32 (length value) ++ t)
                      (append_assoc (drop shared key) value rest)))

  -- An entry is read back: the three lengths, and behind them the rest of the key and the value.
  pub decode_entry-entry_bytes :
      decode_entry (entry_bytes shared key value ++ rest)
      ≡ some (shared, length (drop shared key), length value, drop shared key ++ (value ++ rest))
  unfolding sizes tail delta
  decode_entry-entry_bytes =
      let ns : IsU32 (length (drop shared key)) =
        omega (arith, length-append (drop shared key) (value ++ rest)) in
      let vs : IsU32 (length value) =
        omega (arith, length-append (drop shared key) (value ++ rest), length-append value rest) in
      let long : 3 ≤ length sizes = omega (
        arith,
        length-append (encode_varint32 shared) (
            encode_varint32 (length (drop shared key)) ++ (encode_varint32 (length value) ++ tail)),
        length-append (encode_varint32 (length (drop shared key)))
            (encode_varint32 (length value) ++ tail),
        length-append (encode_varint32 (length value)) tail,
        encode_varint32_some shared fits,
        encode_varint32_some (length (drop shared key)) ns,
        encode_varint32_some (length value) vs,
      ) in
      rw
        (
          entry_bytes-sizes,
          decode_entry-first sizes long,
          get_varint32_ptr-encode shared
              (encode_varint32 (length (drop shared key))
                ++ (encode_varint32 (length value) ++ tail))
              fits,
          get_varint32_ptr-encode (length (drop shared key))
              (encode_varint32 (length value) ++ tail) ns,
          get_varint32_ptr-encode (length value) tail vs,
        )
        (checked_fits shared (drop shared key) value rest all)
