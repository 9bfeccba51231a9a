-- ===== src/TableFormat/Footers.antt =====
-- The footer of a table, of Enclave/leveldb/table/format.cpp, is read back; and when EncodeTo passes
-- its assertion.
use e_lsm_p.Base.{
  ℕ, zero, suc, ◌-◌, ◌/◌, ◌%◌, ◌^◌, ◌≤◌, ◌≡◌, refl, sym, ap, ◌∙◌, List, [], ◌∷◌, ◌++◌, length, take,
  drop, replicate, arith, append_assoc, length-append, drop-append, length-take, ◌+◌, ◌==◌, ◌≢◌,
  ◌↔◌, some, none, if◌then◌else◌, Bool-cases, inl, inr, true,
}
use e_lsm_p.Coding.Fixed.{IsU64, decode_fixed32, encode_fixed32, put_fixed32}
use e_lsm_p.Coding.Fixed.Laws.{decode_fixed32-encode, length-encode_fixed32}
use e_lsm_p.Coding.Varint.{encode_varint64, put_varint64}
use e_lsm_p.Coding.Varint.Decode.{get_varint64-encode}
use e_lsm_p.Coding.Varint.Encode.{varint_length-encode}
use e_lsm_p.Status.{ok}
use e_lsm_p.TableFormat.{
  BlockHandle, encode_handle, Decoded, decode_handle, Footer, table_magic_number, encode_footer,
  DecodedFooter, decode_footer, resize,
}

-- The bytes of a handle.
abbrev pub handle_bytes : BlockHandle → List ℕ
handle_bytes h = encode_varint64 h.offset ++ encode_varint64 h.size

abbrev pub IsHandle : BlockHandle → Type 0
IsHandle h = IsU64 h.offset × IsU64 h.size

pub encode_handle-bytes :
    (h : BlockHandle) (dst : List ℕ) → encode_handle h dst ≡ dst ++ handle_bytes h
unfolding encode_handle put_varint64
encode_handle-bytes h dst = append_assoc dst (encode_varint64 h.offset) (encode_varint64 h.size)

length-handle_bytes : (h : BlockHandle) → IsHandle h → length (handle_bytes h) ≤ 20
length-handle_bytes h fits =
    let (a, _, a_bound, _, _, _) = varint_length-encode h.offset 0 fits.0 (omega arith) in
    let (b, _, b_bound, _, _, _) = varint_length-encode h.size 0 fits.1 (omega arith) in
    omega (arith, length-append (encode_varint64 h.offset) (encode_varint64 h.size))

-- The result of reading a whole handle.
abbrev read_handle : BlockHandle → List ℕ → Decoded
read_handle h rest = record { status = ok; handle = h; input = rest }

pub decode_handle-encode :
    (h old : BlockHandle) (rest : List ℕ)
    → IsHandle h
    → decode_handle (handle_bytes h ++ rest) old ≡ read_handle h rest
unfolding decode_handle
decode_handle-encode h old rest fits =
    rw
      (
        append_assoc (encode_varint64 h.offset) (encode_varint64 h.size) rest,
        get_varint64-encode h.offset (encode_varint64 h.size ++ rest) fits.0,
        get_varint64-encode h.size rest fits.1,
      )
      refl

take-append_left :
    (n : ℕ) (xs ys : List ℕ) → length xs ≤ n → take n (xs ++ ys) ≡ xs ++ take (n - length xs) ys
take-append_left n [] ys h = ap (λ t. take t ys) (omega arith)
take-append_left zero (x ∷ xs) ys h = absurd (omega arith)
take-append_left (suc n) (x ∷ xs) ys h =
    ap (λ t. x ∷ t) (take-append_left n xs ys (omega arith))
    ∙ ap (λ t. x ∷ (xs ++ take t ys)) (omega arith)

-- The bytes that EncodeTo makes of `dst`, which its assertion is about.
abbrev footer_bytes : Footer → List ℕ → List ℕ
footer_bytes f dst =
    put_fixed32
      (put_fixed32 (resize 40 (encode_handle f.index_handle (encode_handle f.metaindex_handle dst)))
        (table_magic_number % 2 ^ 32))
      (table_magic_number / 2 ^ 32)

length-put_fixed32 : (dst : List ℕ) (v : ℕ) → length (put_fixed32 dst v) ≡ length dst + 4
unfolding put_fixed32
length-put_fixed32 dst v =
    omega (arith, length-append dst (encode_fixed32 v), length-encode_fixed32 v)

length-replicate : (n : ℕ) → length (replicate {A = ℕ} n 0) ≡ n
length-replicate zero = refl
length-replicate (suc n) = omega (arith, length-replicate n)

length-resize : (n : ℕ) (xs : List ℕ) → length (resize n xs) ≡ n
length-resize n xs = omega (
  arith,
  length-take n (xs ++ replicate n 0),
  length-append xs (replicate n 0),
  length-replicate n,
)

-- However long the string was, there are 48 bytes in the end.
length-footer_bytes : (f : Footer) (dst : List ℕ) → length (footer_bytes f dst) ≡ 48
length-footer_bytes f dst =
    let handles = encode_handle f.index_handle (encode_handle f.metaindex_handle dst) in
    let padded = resize 40 handles in
    omega (
      arith,
      length-put_fixed32 (put_fixed32 padded (table_magic_number % 2 ^ 32))
          (table_magic_number / 2 ^ 32),
      length-put_fixed32 padded (table_magic_number % 2 ^ 32),
      length-resize 40 handles,
    )

-- The assertion of EncodeTo.
encode_footer-asserted :
    (f : Footer) (dst : List ℕ)
    → encode_footer f dst ≡ (if 48 == length dst + 48 then some (footer_bytes f dst) else none)
unfolding encode_footer
encode_footer-asserted f dst = rw (length-footer_bytes f dst) refl

encode_footer-empty : (f : Footer) → encode_footer f [] ≡ some (footer_bytes f [])
encode_footer-empty f = encode_footer-asserted f []

module _ (f : Footer) (rest : List ℕ) (metaindex : IsHandle f.metaindex_handle)
    (index : IsHandle f.index_handle) where
  handles : List ℕ
  handles = handle_bytes f.metaindex_handle ++ handle_bytes f.index_handle

  padding : List ℕ
  padding = take (40 - length handles) (replicate 40 0)

  block : List ℕ
  block = handles ++ padding

  low : List ℕ
  low = encode_fixed32 (table_magic_number % 2 ^ 32)

  high : List ℕ
  high = encode_fixed32 (table_magic_number / 2 ^ 32)

  handles_short : length handles ≤ 40
  unfolding handles
  handles_short = omega (
    arith,
    length-append (handle_bytes f.metaindex_handle) (handle_bytes f.index_handle),
    length-handle_bytes f.metaindex_handle metaindex,
    length-handle_bytes f.index_handle index,
  )

  length-block : length block ≡ 40
  unfolding block padding
  length-block = omega (
    arith,
    length-append handles (take (40 - length handles) (replicate 40 0)),
    length-take (40 - length handles) (replicate {A = ℕ} 40 0),
    handles_short,
  )

  footer_bytes-block : footer_bytes f [] ≡ (block ++ low) ++ high
  unfolding put_fixed32 block padding handles low high
  footer_bytes-block =
      rw
        (
          encode_handle-bytes f.metaindex_handle [],
          encode_handle-bytes f.index_handle (handle_bytes f.metaindex_handle),
          take-append_left 40 (handle_bytes f.metaindex_handle ++ handle_bytes f.index_handle)
              (replicate 40 0) handles_short,
        )
        refl

  whole : List ℕ
  whole = ((block ++ low) ++ high) ++ rest

  low_part : drop 40 whole ≡ low ++ (high ++ rest)
  unfolding whole
  low_part =
      ap (λ t. drop 40 t)
        (append_assoc (block ++ low) high rest ∙ append_assoc block low (high ++ rest))
      ∙ (ap (λ (t : ℕ). drop t (block ++ (low ++ (high ++ rest)))) (sym length-block)
          ∙ drop-append block (low ++ (high ++ rest)))

  high_part : drop 44 whole ≡ high ++ rest
  unfolding whole low
  high_part =
      let size : length (block ++ low) ≡ 44 = omega (
        arith,
        length-append block low,
        length-block,
        length-encode_fixed32 (table_magic_number % 2 ^ 32),
      ) in
      ap (λ t. drop 44 t) (append_assoc (block ++ low) high rest)
      ∙ (ap (λ (t : ℕ). drop t ((block ++ low) ++ (high ++ rest))) (sym size)
          ∙ drop-append (block ++ low) (high ++ rest))

  size_whole : length ((block ++ low) ++ high) ≡ 48
  unfolding low high
  size_whole = omega (
    arith,
    length-append (block ++ low) high,
    length-append block low,
    length-block,
    length-encode_fixed32 (table_magic_number % 2 ^ 32),
    length-encode_fixed32 (table_magic_number / 2 ^ 32),
  )

  end_part : drop 48 whole ≡ rest
  unfolding whole
  end_part =
      ap (λ (t : ℕ). drop t (((block ++ low) ++ high) ++ rest)) (sym size_whole)
      ∙ drop-append ((block ++ low) ++ high) rest

  front_part :
      whole
      ≡ handle_bytes f.metaindex_handle
        ++ (handle_bytes f.index_handle ++ (padding ++ (low ++ (high ++ rest))))
  unfolding whole block handles
  front_part =
      append_assoc (block ++ low) high rest
      ∙ (append_assoc block low (high ++ rest)
          ∙ (append_assoc handles padding (low ++ (high ++ rest))
              ∙ append_assoc (handle_bytes f.metaindex_handle) (handle_bytes f.index_handle)
                  (padding ++ (low ++ (high ++ rest)))))

  read_footer : DecodedFooter
  read_footer = record { status = ok; footer = f; input = rest }

  decode_footer-whole : (old : Footer) → decode_footer whole old ≡ read_footer
  unfolding decode_footer read_footer low high
  decode_footer-whole old =
      let lo : decode_fixed32 (drop 40 whole) ≡ table_magic_number % 2 ^ 32 =
        ap decode_fixed32 low_part
        ∙ decode_fixed32-encode (table_magic_number % 2 ^ 32) (high ++ rest) (omega arith) in
      let hi : decode_fixed32 (drop 44 whole) ≡ table_magic_number / 2 ^ 32 =
        ap decode_fixed32 high_part
        ∙ decode_fixed32-encode (table_magic_number / 2 ^ 32) rest (omega arith) in
      let tail = padding ++ (low ++ (high ++ rest)) in
      let first =
        ap (λ t. decode_handle t old.metaindex_handle) front_part
        ∙ decode_handle-encode f.metaindex_handle old.metaindex_handle
            (handle_bytes f.index_handle ++ tail) metaindex in
      let second = decode_handle-encode f.index_handle old.index_handle tail index in
      rw (lo, hi, first, second, end_part) refl

  -- A footer whose handles hold uint64 values takes 48 bytes behind an empty string, and is read back
  -- from them, whatever follows; what follows is what DecodeFrom leaves.
  pub decode_footer-encode :
      (old : Footer)
      → (e : List ℕ) × (encode_footer f [] ≡ some e)
        × (length e ≡ 48)
        × (decode_footer (e ++ rest) old ≡ record { status = ok; footer = f; input = rest })
  unfolding read_footer whole
  decode_footer-encode old = (
    (block ++ low) ++ high,
    encode_footer-empty f ∙ ap some footer_bytes-block,
    size_whole,
    decode_footer-whole old,
  )

-- EncodeTo gets past its assertion on the size just for an empty string: it resizes the whole string, so
-- that behind any byte the size is not that of the string and a footer.
pub encode_footer_asserts :
    (f : Footer) (dst : List ℕ) → (encode_footer f dst ≢ none) ↔ (length dst ≡ 0)
encode_footer_asserts f dst = (
  λ passes. elim (Bool-cases (48 == length dst + 48)) [
    | inl same ↦ ground (arith, same)
    | inr other ↦ absurd (passes (encode_footer-asserted f dst ∙ (rw other refl)))
  ],
  λ empty.
      let same : (48 == length dst + 48) ≡ true = ground (arith, empty) in
      let made : encode_footer f dst ≡ some (footer_bytes f dst) =
        encode_footer-asserted f dst ∙ (rw same refl) in
      λ h. cc,
)
