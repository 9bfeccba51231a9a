-- ===== src/Coding/Varint/Reads.antt =====
-- What a successful read takes from any input, well formed or not.
use e_lsm_p.Base.{
  ℕ, ◌+◌, ◌*◌, ◌%◌, ◌^◌, ◌<◌, ◌≡◌, refl, sym, ◌∙◌, bit_and, bit_or, Option, some, none, List, [],
  ◌∷◌, arith, length, All, length-drop,
}
use e_lsm_p.Base.Bits.{bit_or_bound}
use e_lsm_p.Coding.Fixed.{IsU32, IsU64, IsByte}
use e_lsm_p.Coding.Varint.{
  get_varint_loop, get_varint32_ptr_fallback, get_varint32, get_varint64, split_at_length,
  get_length_prefixed_slice,
}
use e_lsm_p.Coding.Varint.Decode.{get_varint32_ptr-fallback}
use native.Mathlib.Nat.{mod-lt}

add_bound : (width result x : ℕ) → result < 2 ^ width → bit_or result (x % 2 ^ width) < 2 ^ width
add_bound width result x h = bit_or_bound width result (x % 2 ^ width) h (mod-lt x (omega arith))

loop_takes :
    (width last : ℕ) (p : List ℕ) (result shift v : ℕ) (rest : List ℕ)
    → result < 2 ^ width
    → get_varint_loop width last p result shift ≡ some (v, rest)
    → (v < 2 ^ width) × (length rest < length p)
unfolding get_varint_loop
loop_takes width last [] result shift v rest h e = cc
loop_takes width last (b ∷ p) result shift v rest h e =
    let stop = add_bound width result (b * 2 ^ shift) h in
    let more = add_bound width result (bit_and b 127 * 2 ^ shift) h in
    ground (
      arith,
      stop,
      loop_takes width last p (bit_or result (bit_and b 127 * 2 ^ shift % 2 ^ width)) (shift + 7) v
          rest more,
    )

fallback_takes :
    (p : List ℕ) (v : ℕ) (rest : List ℕ)
    → get_varint32_ptr_fallback p ≡ some (v, rest)
    → IsU32 v × (length rest < length p)
unfolding get_varint32_ptr_fallback
fallback_takes p v rest e = loop_takes 32 28 p 0 0 v rest (omega arith) e

-- A successful read of a varint gives a value of the width and takes at least one byte.
pub get_varint32_takes :
    (input : List ℕ) (v : ℕ) (rest : List ℕ)
    → All IsByte input
    → get_varint32 input ≡ some (v, rest)
    → IsU32 v × (length rest < length input)
unfolding get_varint32
get_varint32_takes input v rest h e =
    fallback_takes input v rest (sym (get_varint32_ptr-fallback input h) ∙ e)

-- The same of the 64-bit reader.
pub get_varint64_takes :
    (input : List ℕ) (v : ℕ) (rest : List ℕ)
    → get_varint64 input ≡ some (v, rest)
    → IsU64 v × (length rest < length input)
unfolding get_varint64
get_varint64_takes input v rest e = loop_takes 64 63 input 0 0 v rest (omega arith) e

-- Without the condition on bytes, the input still shrinks.
pub get_varint32_shrinks :
    (input : List ℕ) (v : ℕ) (rest : List ℕ)
    → get_varint32 input ≡ some (v, rest)
    → length rest < length input
unfolding get_varint32
get_varint32_shrinks [] v rest e = (fallback_takes [] v rest e).1
get_varint32_shrinks (b ∷ p) v rest e = ground (arith, fallback_takes (b ∷ p) v rest)

split_shrinks :
    (n : ℕ) (o : Option (ℕ × List ℕ)) (value rest : List ℕ)
    → ((v : ℕ) (r : List ℕ) → o ≡ some (v, r) → length r < n)
    → split_at_length o ≡ some (value, rest)
    → length rest < n
unfolding split_at_length
split_shrinks n none value rest h e = cc
split_shrinks n (some (len, r)) value rest h e = ground (arith, h len r refl, length-drop len r)

pub get_length_prefixed_slice_shrinks :
    (input value rest : List ℕ)
    → get_length_prefixed_slice input ≡ some (value, rest)
    → length rest < length input
unfolding get_length_prefixed_slice
get_length_prefixed_slice_shrinks input value rest e =
    split_shrinks (length input) (get_varint32 input) value rest (get_varint32_shrinks input) e
