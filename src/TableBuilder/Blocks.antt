-- ===== src/TableBuilder/Blocks.antt =====
-- What TableBuilder::WriteRawBlock and WriteBlock write, ReadBlock of table/format.cpp reads.
use e_lsm_p.Base.{
  ℕ, ◌+◌, ◌-◌, ◌/◌, ◌%◌, ◌^◌, ◌<◌, ◌≡◌, refl, sym, ap, ◌∙◌, Bool, true, false, Option, none, some,
  List, [], ◌∷◌, ◌++◌, length, take, drop, get_or, ltb, ◌==◌, if◌then◌else◌, arith, Bool-cases, inl,
  inr, append_assoc, append-nil, length-append, take-append, drop-append, get_or-append_right,
}
use e_lsm_p.Coding.Fixed.{IsU32, put_fixed32, encode_fixed32, decode_fixed32}
use e_lsm_p.Coding.Fixed.Laws.{decode_fixed32-encode, length-encode_fixed32}
use e_lsm_p.Status.{Status, ok, status_ok}
use e_lsm_p.Block.{BlockBuilder}
use e_lsm_p.Block
use e_lsm_p.TableFormat.{BlockHandle, mask, unmask, Snappy, by_type, read_block}
use e_lsm_p.TableFormat.Masks.{unmask-mask}
use e_lsm_p.TableBuilder.{
  WritableFile, FilterBuilder, Crc, Options, Rep, compressed, choose, write_raw_block, write_block,
}

-- Reading `n` bytes of a file at an offset.
abbrev pub read_of : List ℕ → ℕ → ℕ → Status × List ℕ
read_of file offset n = (ok, take n (drop offset file))

-- The bytes of a block with its trailer.
abbrev block_bytes : Crc → List ℕ → ℕ → List ℕ
block_bytes crc contents type =
    contents ++ (type ∷ encode_fixed32 (mask (crc.value (contents ++ (type ∷ [])))))

same_either {ℓ} : {A : Type ℓ} → (b : Bool) (x : A) → (if b then x else x) ≡ x
same_either true x = refl
same_either false x = refl

length-block_bytes :
    (crc : Crc) (contents : List ℕ) (type : ℕ)
    → length (block_bytes crc contents type) ≡ length contents + 5
length-block_bytes crc contents type =
    let tail = type ∷ encode_fixed32 (mask (crc.value (contents ++ (type ∷ [])))) in
    omega (
      arith,
      length-append contents tail,
      length-encode_fixed32 (mask (crc.value (contents ++ (type ∷ [])))),
    )

module _ (crc : Crc) (value_fits : (x : List ℕ) → IsU32 (crc.value x)) (snappy : Snappy)
    (verify : Bool) (contents : List ℕ) (type : ℕ) (before later : List ℕ)
    (small : length contents + 5 < 2 ^ 64) where
  block : List ℕ
  block = block_bytes crc contents type

  sum : ℕ
  sum = mask (crc.value (contents ++ (type ∷ [])))

  read_back :
      take ((length contents + 5) % 2 ^ 64) (drop (length before) (before ++ (block ++ later)))
      ≡ block
  unfolding block
  read_back =
      let size : (length contents + 5) % 2 ^ 64 ≡ length (block_bytes crc contents type) =
        omega (arith, length-block_bytes crc contents type) in
      rw (size, drop-append before (block_bytes crc contents type ++ later))
        (take-append (block_bytes crc contents type) later)

  type_read : get_or block (length contents) 0 ≡ type
  unfolding block
  type_read =
      ap (λ (t : ℕ). get_or (block_bytes crc contents type) t 0) (omega arith)
      ∙ get_or-append_right contents
          (type ∷ encode_fixed32 (mask (crc.value (contents ++ (type ∷ []))))) 0 0

  block_split : block ≡ (contents ++ (type ∷ [])) ++ encode_fixed32 sum
  unfolding block sum
  block_split = sym (
      append_assoc contents (type ∷ [])
        (encode_fixed32 (mask (crc.value (contents ++ (type ∷ []))))))

  front_size : length (contents ++ (type ∷ [])) ≡ length contents + 1
  front_size = omega (arith, length-append contents (type ∷ []))

  contents_read : take (length contents) block ≡ contents
  unfolding block
  contents_read = take-append contents _

  summed_read : take (length contents + 1) block ≡ contents ++ (type ∷ [])
  summed_read =
      ap (λ t. take (length contents + 1) t) block_split
      ∙ (ap (λ (n : ℕ). take n ((contents ++ (type ∷ [])) ++ encode_fixed32 sum)) (sym front_size)
          ∙ take-append (contents ++ (type ∷ [])) (encode_fixed32 sum))

  sum_read :
      unmask (decode_fixed32 (drop (length contents + 1) block))
      ≡ crc.value (contents ++ (type ∷ []))
  unfolding sum
  sum_read =
      let (fits, back) =
        unmask-mask (crc.value (contents ++ (type ∷ []))) (value_fits (contents ++ (type ∷ []))) in
      ap (λ t. unmask (decode_fixed32 (drop (length contents + 1) t))) block_split
      ∙ (ap
            (λ (n : ℕ).
              unmask (decode_fixed32 (drop n ((contents ++ (type ∷ [])) ++ encode_fixed32 sum))))
            (sym front_size)
          ∙ (ap (λ t. unmask (decode_fixed32 t))
                (drop-append (contents ++ (type ∷ [])) (encode_fixed32 sum))
              ∙ (ap (λ t. unmask (decode_fixed32 t)) (sym (append-nil (encode_fixed32 sum)))
                  ∙ (ap unmask (decode_fixed32-encode sum [] fits) ∙ back))))

  handle : BlockHandle
  handle = record { offset = length before; size = length contents }

  read_block-bytes :
      read_block crc.value snappy (read_of (before ++ (block ++ later))) verify handle
      ≡ by_type snappy type contents
  unfolding read_block handle
  read_block-bytes =
      let whole : length block ≡ length contents + 5 =
        (unfold block in length-block_bytes crc contents type) in
      let size : (length block == (length contents + 5) % 2 ^ 64) ≡ true =
        ground (arith, whole, small) in
      let same : (crc.value (contents ++ (type ∷ [])) == crc.value (contents ++ (type ∷ [])))
          ≡ true =
        ground arith in
      rw (read_back, sum_read, summed_read, contents_read, type_read, size, same)
        (same_either verify (by_type snappy type contents))

abbrev handle_at : ℕ → ℕ → BlockHandle
handle_at offset size = record { offset = offset; size = size }

read_block_at :
    (crc : Crc)
    → ((x : List ℕ) → IsU32 (crc.value x))
    → (snappy : Snappy) (verify : Bool) (contents : List ℕ) (type : ℕ) (before later : List ℕ)
    → length contents + 5 < 2 ^ 64
    → read_block crc.value snappy
        (read_of (before ++ (block_bytes crc contents type ++ later)))
        verify
        (handle_at (length before) (length contents))
      ≡ by_type snappy type contents
unfolding block handle
read_block_at crc fits snappy verify contents type before later small =
    read_block-bytes crc fits snappy verify contents type before later small

-- What the builder relies on: an Append that succeeds adds the bytes at the end of the file, the CRC
-- of two parts is the CRC of both together and a uint32, and Snappy undoes its own compression.
pub record Relies {F : Type 0} (out : WritableFile F) (contents_of : F → List ℕ) (crc : Crc)
    (snappy : Snappy) : Type 0 where
  pub append_adds :
      (f : F) (s : List ℕ)
      → status_ok (out.append f s).0 ≡ true
      → contents_of (out.append f s).1 ≡ contents_of f ++ s
  pub extend_value : (a b : List ℕ) → crc.extend (crc.value a) b ≡ crc.value (a ++ b)
  pub value_fits : (a : List ℕ) → IsU32 (crc.value a)
  pub uncompress_compress :
      (a b : List ℕ) → snappy.compress a ≡ some b → snappy.uncompressed b ≡ some a

module _ {F B : Type 0} (out : WritableFile F) (filters : FilterBuilder B) (crc : Crc)
    (snappy : Snappy) (options : Options) (contents_of : F → List ℕ)
    (relies : Relies out contents_of crc snappy) where
  write_raw_block_adds :
      (contents : List ℕ) (type : ℕ) (r : Rep F B)
      → let (handle, r') = write_raw_block out filters crc snappy options contents type r in
        status_ok r'.status ≡ true
        → (contents_of r'.file ≡ contents_of r.file ++ block_bytes crc contents type)
          × (handle ≡ record { offset = r.offset; size = length contents })
          × (r'.offset ≡ (r.offset + length contents + 5) % 2 ^ 64)
  unfolding write_raw_block put_fixed32
  write_raw_block_adds contents type r done =
      elim (Bool-cases (status_ok (out.append r.file contents).0)) [
        | inl good ↦
            let f1 = (out.append r.file contents).1 in
            let tail = type ∷ encode_fixed32 (mask (crc.extend (crc.value contents) (type ∷ []))) in
            let done' : status_ok (out.append f1 tail).0 ≡ true = rw good at done in
            let bytes_now =
              relies.append_adds f1 tail done'
              ∙ (ap (λ t. t ++ tail) (relies.append_adds r.file contents good)
                  ∙ (append_assoc (contents_of r.file) contents tail
                      ∙ ap
                          (λ v.
                            contents_of r.file ++ (contents ++ (type ∷ encode_fixed32 (mask v))))
                          (relies.extend_value contents (type ∷ [])))) in
            rw (good, done') (bytes_now, refl, refl)
        | inr bad ↦
            let failed : status_ok (out.append r.file contents).0 ≡ true = rw bad at done in
            absurd (let no_way : ⊥ = cc in no_way)
      ]

  compressed_reads :
      (raw : List ℕ) (o : Option (List ℕ))
      → snappy.compress raw ≡ o
      → by_type snappy (compressed raw o).1 (compressed raw o).0 ≡ (ok, raw)
  compressed_reads raw none e = refl
  compressed_reads raw (some smaller) e =
      elim (Bool-cases (ltb (length smaller) (length raw - length raw / 8))) [
        | inl chosen ↦ rw (chosen, relies.uncompress_compress raw smaller e) refl
        | inr kept ↦ rw kept refl
      ]

  choose_reads :
      (wanted : Bool) (raw : List ℕ)
      → by_type snappy (choose snappy wanted raw).1 (choose snappy wanted raw).0 ≡ (ok, raw)
  choose_reads true raw = compressed_reads raw (snappy.compress raw) refl
  choose_reads false raw = refl

  -- If WriteBlock leaves the status OK, the handle that it sets leads ReadBlock to the bytes that the
  -- block builder's Finish gave, with or without a check of the sum, with or without compression, and
  -- whatever is written behind later; and the builder's offset is the end of the file again.
  pub write_block-read_block :
      (block : BlockBuilder) (r : Rep F B) (verify : Bool) (later : List ℕ)
      → length (contents_of r.file) ≡ r.offset
      → r.offset + length (choose snappy options.snappy (Block.finish block).buffer).0 + 5 < 2 ^ 64
      → status_ok (write_block out filters crc snappy options block r).1.1.status ≡ true
      → (read_block crc.value snappy
            (read_of
              (contents_of (write_block out filters crc snappy options block r).1.1.file ++ later))
            verify
            (write_block out filters crc snappy options block r).1.0
          ≡ (ok, (Block.finish block).buffer))
        × (length (contents_of (write_block out filters crc snappy options block r).1.1.file)
            ≡ (write_block out filters crc snappy options block r).1.1.offset)
  unfolding write_block
  write_block-read_block block r verify later at_end small done =
      let raw = (Block.finish block).buffer in
      let (contents, type) = choose snappy options.snappy raw in
      let (file, handle, offset) = write_raw_block_adds contents type r done in
      let size = length-block_bytes crc contents type in
      let total = length-append (contents_of r.file) (block_bytes crc contents type) in
      let placed : List ℕ = contents_of r.file ++ (block_bytes crc contents type ++ later) in
      let bytes_now : contents_of
              (write_raw_block out filters crc snappy options contents type r).1.file
            ++ later
          ≡ placed =
        ap (λ t. t ++ later) file
        ∙ append_assoc (contents_of r.file) (block_bytes crc contents type) later in
      let handle_now : (write_raw_block out filters crc snappy options contents type r).0
          ≡ record { offset = length (contents_of r.file); size = length contents } =
        handle ∙ ap (λ (o : ℕ). handle_at o (length contents)) (sym at_end) in
      (
        ap
              (λ t.
                read_block crc.value snappy (read_of t) verify
                  (write_raw_block out filters crc snappy options contents type r).0)
              bytes_now
            ∙ (ap (λ h. read_block crc.value snappy (read_of placed) verify h) handle_now
                ∙ (read_block_at crc relies.value_fits snappy verify contents type
                      (contents_of r.file) later (omega arith)
                    ∙ choose_reads options.snappy raw)),
        omega (arith, ap (λ (t : List ℕ). length t) file, size, total, offset, at_end, small),
      )
