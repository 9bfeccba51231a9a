-- ===== src/TableFormat/Masks.antt =====
-- The masked form of a checksum, of Enclave/leveldb/util/crc32c.h.
use e_lsm_p.Base.{ℕ, ◌+◌, ◌-◌, ◌*◌, ◌/◌, ◌%◌, ◌^◌, ◌≡◌, ap, ◌∙◌, bit_or, arith}
use e_lsm_p.Base.Bits.{bit_or_disjoint}
use e_lsm_p.Coding.Fixed.{IsU32}
use e_lsm_p.TableFormat.{mask, unmask, mask_delta}

rotate_right_sum :
    (crc : ℕ)
    → IsU32 crc
    → bit_or (crc / 2 ^ 15) (crc * 2 ^ 17 % 2 ^ 32) ≡ crc / 2 ^ 15 + crc % 2 ^ 15 * 2 ^ 17
rotate_right_sum crc h =
    ap (λ (t : ℕ). bit_or (crc / 2 ^ 15) t) (omega arith)
    ∙ bit_or_disjoint 17 (crc / 2 ^ 15) (crc % 2 ^ 15) (omega arith)

rotate_left_sum :
    (r : ℕ) → IsU32 r → bit_or (r / 2 ^ 17) (r * 2 ^ 15 % 2 ^ 32) ≡ r / 2 ^ 17 + r % 2 ^ 17 * 2 ^ 15
rotate_left_sum r h =
    ap (λ (t : ℕ). bit_or (r / 2 ^ 17) t) (omega arith)
    ∙ bit_or_disjoint 15 (r / 2 ^ 17) (r % 2 ^ 17) (omega arith)

-- A masked checksum is a uint32, and unmasking it gives the checksum back.
pub unmask-mask : (crc : ℕ) → IsU32 crc → IsU32 (mask crc) × (unmask (mask crc) ≡ crc)
unfolding mask unmask
unmask-mask crc h =
    let rot : ℕ = (mask crc + (2 ^ 32 - mask_delta)) % 2 ^ 32 in
    let turned : rot ≡ crc / 2 ^ 15 + crc % 2 ^ 15 * 2 ^ 17 =
      omega (arith, rotate_right_sum crc h) in
    (omega arith, rotate_left_sum rot (omega arith) ∙ omega (arith, turned))
