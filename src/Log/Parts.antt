-- ===== src/Log/Parts.antt =====
-- A buffer of Enclave/leveldb/db/log_reader.cpp that holds a fragment, and what ReadPhysicalRecord takes from it.
use e_lsm_p.Base.{
  ℕ, zero, suc, ◌+◌, ◌-◌, ◌*◌, ◌/◌, ◌%◌, ◌^◌, ◌≤◌, ◌<◌, ◌≡◌, refl, sym, ap, ◌∙◌, true, false, ◌&&◌,
  List, [], ◌∷◌, ◌++◌, length, take, drop, get_or, ltb, ◌==◌, arith, append_assoc, length-append,
}
use e_lsm_p.Coding.Fixed.{IsU32, encode_fixed32, decode_fixed32}
use e_lsm_p.Coding.Fixed.Laws.{decode_fixed32-encode}
use e_lsm_p.TableBuilder.{Crc}
use e_lsm_p.TableFormat.{mask, unmask}
use e_lsm_p.TableFormat.Masks.{unmask-mask}
use e_lsm_p.Log.{header_size, header}
use e_lsm_p.Log.Reader.{Reader, parse_physical, widened}

-- What the format relies on of the CRC.
pub record IsCrc (crc : Crc) : Type 0 where
  pub extend_value : (a b : List ℕ) → crc.extend (crc.value a) b ≡ crc.value (a ++ b)
  pub value_fits : (a : List ℕ) → IsU32 (crc.value a)

pub take_front :
    (n : ℕ) (xs ys : List ℕ) → length xs ≤ n → take n (xs ++ ys) ≡ xs ++ take (n - length xs) ys
take_front n [] ys h = ap (λ m. take m ys) (let e : n ≡ n - 0 = omega arith in e)
take_front zero (x ∷ xs) ys h = absurd (omega arith)
take_front (suc n) (x ∷ xs) ys h =
    ap (λ t. x ∷ t)
      (take_front n xs ys (omega arith)
        ∙ ap (λ m. xs ++ take m ys)
            (let e : n - length xs ≡ suc n - suc (length xs) = omega arith in e))

pub drop_front :
    (n : ℕ) (xs ys : List ℕ) → length xs ≤ n → drop n (xs ++ ys) ≡ drop (n - length xs) ys
drop_front n [] ys h = ap (λ m. drop m ys) (let e : n ≡ n - 0 = omega arith in e)
drop_front zero (x ∷ xs) ys h = absurd (omega arith)
drop_front (suc n) (x ∷ xs) ys h =
    drop_front n xs ys (omega arith)
    ∙ ap (λ m. drop m ys) (let e : n - length xs ≡ suc n - suc (length xs) = omega arith in e)

pub take_exactly : (n : ℕ) (xs ys : List ℕ) → n ≡ length xs → take n (xs ++ ys) ≡ xs
take_exactly n [] ys h = rw h refl
take_exactly n (x ∷ xs) ys h = rw h (ap (λ t. x ∷ t) (take_exactly (length xs) xs ys refl))

pub drop_exactly : (n : ℕ) (xs ys : List ℕ) → n ≡ length xs → drop n (xs ++ ys) ≡ ys
drop_exactly n [] ys h = rw h refl
drop_exactly n (x ∷ xs) ys h = rw h (drop_exactly (length xs) xs ys refl)

-- The header and what follows it, split behind the checksum.
module _ (v : ℕ) (ys : List ℕ) where
  behind_checksum :
      (get_or (encode_fixed32 v ++ ys) 4 0 ≡ get_or ys 0 0)
      × (get_or (encode_fixed32 v ++ ys) 5 0 ≡ get_or ys 1 0)
      × (get_or (encode_fixed32 v ++ ys) 6 0 ≡ get_or ys 2 0)
      × (drop 6 (encode_fixed32 v ++ ys) ≡ drop 2 ys)
      × (drop 7 (encode_fixed32 v ++ ys) ≡ drop 3 ys)
      × (length (encode_fixed32 v ++ ys) ≡ 4 + length ys)
  unfolding encode_fixed32
  behind_checksum = (refl, refl, refl, refl, refl, omega arith)

length_bytes : (n : ℕ) → n < 2 ^ 16 → n % 256 + n / 256 % 256 * 2 ^ 8 ≡ n
length_bytes n h = omega arith

drop_add : (m n : ℕ) (xs : List ℕ) → drop (m + n) xs ≡ drop n (drop m xs)
drop_add zero n xs = ap (λ k. drop k xs) (let e : 0 + n ≡ n = omega arith in e)
drop_add (suc m) zero [] = ap (λ k. drop k []) (let e : suc m + 0 ≡ suc m = omega arith in e)
drop_add (suc m) (suc n) [] =
    ap (λ k. drop k []) (let e : suc m + suc n ≡ suc (m + suc n) = omega arith in e)
drop_add (suc m) n (x ∷ xs) =
    ap (λ k. drop k (x ∷ xs)) (let e : suc m + n ≡ suc (m + n) = omega arith in e) ∙ drop_add m n xs

module _ (crc : Crc) (lawful : IsCrc crc) where
  abbrev checksum : ℕ → List ℕ → ℕ
  checksum t s = crc.value (t ∷ s)

  -- What the parts of a buffer are that holds a fragment.
  pub record Parts (t : ℕ) (s tail buffer : List ℕ) : Type 0 where
    pub type_is : widened (get_or buffer 6 0) ≡ t
    pub length_is : get_or buffer 4 0 + get_or buffer 5 0 * 2 ^ 8 ≡ length s
    pub long : ltb (length buffer) (header_size + length s) ≡ false
    pub checked : crc.value (take (1 + length s) (drop 6 buffer)) ≡ unmask (decode_fixed32 buffer)
    pub fragment : take (length s) (drop header_size buffer) ≡ s
    pub left : drop (header_size + length s) buffer ≡ tail

  abbrev sum_of : ℕ → List ℕ → ℕ
  sum_of t s = mask (crc.extend (crc.value (t ∷ [])) s)

  abbrev behind_sum : ℕ → List ℕ → List ℕ → List ℕ
  behind_sum t s tail = length s % 256 ∷ length s / 256 % 256 ∷ t ∷ (s ++ tail)

  header-split :
      (t : ℕ) (s tail : List ℕ)
      → header crc t s ++ (s ++ tail) ≡ encode_fixed32 (sum_of t s) ++ behind_sum t s tail
  unfolding header
  header-split t s tail =
      append_assoc (encode_fixed32 (sum_of t s)) (length s % 256 ∷ length s / 256 % 256 ∷ t ∷ [])
        (s ++ tail)

  sum_fits : (t : ℕ) (s : List ℕ) → IsU32 (sum_of t s) × (unmask (sum_of t s) ≡ crc.value (t ∷ s))
  sum_fits t s =
      let same = lawful.extend_value (t ∷ []) s in
      let (fits, back) =
        unmask-mask (crc.extend (crc.value (t ∷ [])) s) (rw same (lawful.value_fits (t ∷ s))) in
      (fits, back ∙ same)

  split-Parts :
      (t : ℕ) (s tail buffer : List ℕ)
      → t < 128
      → length s < 2 ^ 16
      → buffer ≡ encode_fixed32 (sum_of t s) ++ behind_sum t s tail
      → Parts t s tail buffer
  split-Parts t s tail buffer small short split =
      let n = length s in
      let (b4, b5, b6, d6, d7, size) = behind_checksum (sum_of t s) (behind_sum t s tail) in
      let ends = length-append s tail in
      let (fits, back) = sum_fits t s in
      let long : ltb (length buffer) (header_size + n) ≡ false =
        rw split (rw size (ground (arith, ends))) in
      let one_more : 1 + n ≡ suc n = omega arith in
      record {
        type_is = ap (λ b. widened (get_or b 6 0)) split ∙ ap widened b6 ∙ (ground (arith, small));
        length_is =
            ap (λ b. get_or b 4 0 + get_or b 5 0 * 2 ^ 8) split
            ∙ (rw (b4, b5) (length_bytes n short));
        long = long;
        checked =
            ap (λ b. crc.value (take (1 + n) (drop 6 b))) split
            ∙ (rw (d6, one_more, take_exactly n s tail refl) (sym back))
            ∙ ap unmask (
                sym (
                  ap decode_fixed32 split
                  ∙ decode_fixed32-encode (sum_of t s) (behind_sum t s tail) fits));
        fragment =
            ap (λ b. take n (drop header_size b)) split
            ∙ ap (take n) d7
            ∙ take_exactly n s tail refl;
        left =
            drop_add header_size n buffer
            ∙ ap (λ b. drop n (drop header_size b)) split
            ∙ ap (drop n) d7
            ∙ drop_exactly n s tail refl;
      }

  pub fragment-Parts :
      (t : ℕ) (s tail : List ℕ)
      → t < 128
      → length s < 2 ^ 16
      → Parts t s tail (header crc t s ++ (s ++ tail))
  fragment-Parts t s tail small short = split-Parts t s tail _ small short (header-split t s tail)

  below_zero : (n : ℕ) → ltb n 0 ≡ false
  below_zero n = ground arith

  pub parse-Parts :
      {F : Type 0} (r : Reader F) (t : ℕ) (s tail : List ℕ)
      → 0 < t
      → Parts t s tail r.buffer
      → parse_physical crc true 0 r ≡ (t, s, record r { buffer = tail })
  unfolding parse_physical
  parse-Parts r t s tail positive parts =
      let not_zero : ((t == 0) && (length s == 0)) ≡ false = ground (arith, positive) in
      let same : (unmask (decode_fixed32 r.buffer) == unmask (decode_fixed32 r.buffer)) ≡ true =
        ground arith in
      rw
        (
          parts.type_is,
          parts.length_is,
          parts.long,
          not_zero,
          parts.checked,
          same,
          parts.fragment,
          parts.left,
          below_zero _,
        )
        refl
