-- ===== src/TableFormat.antt =====
-- Enclave/leveldb/table/format.h and format.cpp, and the masking of Enclave/leveldb/util/crc32c.h:
-- the handle of a block, the footer of a table, and reading one block. The CRC is a parameter, as
-- are the file and Snappy.
pub mod Footers
pub mod Masks
use e_lsm_p.Base.{
  ℕ, zero, suc, ◌+◌, ◌-◌, ◌*◌, ◌/◌, ◌%◌, ◌^◌, bit_or, Bool, true, false, not, Option, none, some,
  List, [], ◌∷◌, ◌++◌, length, take, drop, replicate, get_or, ◌==◌, if◌then◌else◌,
}
use e_lsm_p.Coding.Fixed.{put_fixed32, decode_fixed32}
use e_lsm_p.Coding.Varint.{put_varint64, get_varint64}
use e_lsm_p.Status.{Status, ok, status_ok, corruption, bytes}

pub record BlockHandle : Type 0 where
  pub offset : ℕ
  pub size : ℕ

-- BlockHandle(): both fields unset.
abbrev pub new_block_handle : BlockHandle
new_block_handle = record { offset = 2 ^ 64 - 1; size = 2 ^ 64 - 1 }

unfoldable pub encode_handle : BlockHandle → List ℕ → List ℕ
encode_handle h dst = put_varint64 (put_varint64 dst h.offset) h.size

-- The status, the handle as it is left, and what is left of the input.
pub record Decoded : Type 0 where
  pub status : Status
  pub handle : BlockHandle
  pub input : List ℕ

abbrev pub with_size : ℕ → BlockHandle → List ℕ → Option (ℕ × List ℕ) → Decoded
with_size offset h input none = record {
  status = corruption (bytes "bad block handle") [];
  handle = record h { offset = offset };
  input = input;
}
with_size offset h input (some (size, rest)) = record {
  status = ok;
  handle = record { offset = offset; size = size };
  input = rest;
}

abbrev pub with_offset : BlockHandle → List ℕ → Option (ℕ × List ℕ) → Decoded
with_offset h input none = record {
  status = corruption (bytes "bad block handle") [];
  handle = h;
  input = input;
}
with_offset h input (some (offset, rest)) = with_size offset h rest (get_varint64 rest)

unfoldable pub decode_handle : List ℕ → BlockHandle → Decoded
decode_handle input h = with_offset h input (get_varint64 input)

pub record Footer : Type 0 where
  pub metaindex_handle : BlockHandle
  pub index_handle : BlockHandle

abbrev pub table_magic_number : ℕ
table_magic_number = 0xdb4775248b80fb57

-- std::string::resize
abbrev pub resize : ℕ → List ℕ → List ℕ
resize n xs = take n (xs ++ replicate n 0)

-- Footer::EncodeTo. It resizes the whole of `dst` to 2 * kMaxEncodedLength, not what it added; `none` is
-- the failure of its assertion on the size.
unfoldable pub encode_footer : Footer → List ℕ → Option (List ℕ)
unfolding encode_handle
encode_footer f dst =
    let handles = encode_handle f.index_handle (encode_handle f.metaindex_handle dst) in
    let whole =
      put_fixed32 (put_fixed32 (resize 40 handles) (table_magic_number % 2 ^ 32))
        (table_magic_number / 2 ^ 32) in
    if length whole == length dst + 48 then some whole else none

pub record DecodedFooter : Type 0 where
  pub status : Status
  pub footer : Footer
  pub input : List ℕ

abbrev pub footer_result : List ℕ → BlockHandle → Decoded → DecodedFooter
footer_result whole metaindex second = record {
  status = second.status;
  footer = record { metaindex_handle = metaindex; index_handle = second.handle };
  input = if status_ok second.status then drop 48 whole else second.input;
}

abbrev pub footer_second : List ℕ → Footer → Decoded → DecodedFooter
footer_second whole f first =
    let second = decode_handle first.input f.index_handle in
    if status_ok first.status then footer_result whole first.handle second else record {
      status = first.status;
      footer = record f { metaindex_handle = first.handle };
      input = first.input;
    }

-- Footer::DecodeFrom, on an input of at least kEncodedLength (48) bytes.
unfoldable pub decode_footer : List ℕ → Footer → DecodedFooter
unfolding decode_handle
decode_footer input f =
    let magic_lo = decode_fixed32 (drop 40 input) in
    let magic_hi = decode_fixed32 (drop 44 input) in
    let read = footer_second input f (decode_handle input f.metaindex_handle) in
    if bit_or (magic_hi * 2 ^ 32) magic_lo == table_magic_number then read else record {
      status = corruption (bytes "not an sstable (bad magic number)") [];
      footer = f;
      input = input;
    }

abbrev pub mask_delta : ℕ
mask_delta = 0xa282ead8

-- crc32c::Mask, on uint32_t.
unfoldable pub mask : ℕ → ℕ
mask crc = (bit_or (crc / 2 ^ 15) (crc * 2 ^ 17 % 2 ^ 32) + mask_delta) % 2 ^ 32

-- crc32c::Unmask; the difference wraps around.
unfoldable pub unmask : ℕ → ℕ
unmask masked_crc =
    let rot = (masked_crc + (2 ^ 32 - mask_delta)) % 2 ^ 32 in
    bit_or (rot / 2 ^ 17) (rot * 2 ^ 15 % 2 ^ 32)

-- What Snappy, outside this code, makes of some bytes, where it can.
pub record Snappy : Type 0 where
  pub compress : List ℕ → Option (List ℕ)
  pub uncompressed : List ℕ → Option (List ℕ)

abbrev pub uncompressed_result : Option (List ℕ) → Status × List ℕ
uncompressed_result none = (corruption (bytes "corrupted compressed block contents") [], [])
uncompressed_result (some block) = (ok, block)

-- The switch on the type of the block.
abbrev pub by_type : Snappy → ℕ → List ℕ → Status × List ℕ
by_type snappy zero block = (ok, block)
by_type snappy (suc zero) block = uncompressed_result (snappy.uncompressed block)
by_type snappy (suc (suc type)) block = (corruption (bytes "bad block type") [], [])

-- ReadBlock: `read` is the file's Read. The status, and the data of the result, empty where ReadBlock
-- leaves it so.
unfoldable pub read_block :
    (List ℕ → ℕ) → Snappy → (ℕ → ℕ → Status × List ℕ) → Bool → BlockHandle → Status × List ℕ
unfolding unmask
read_block crc_value snappy read verify_checksums handle =
    let n = handle.size in
    let (s, contents) = read handle.offset ((n + 5) % 2 ^ 64) in
    let crc = unmask (decode_fixed32 (drop (n + 1) contents)) in
    let actual = crc_value (take (n + 1) contents) in
    let block = by_type snappy (get_or contents n 0) (take n contents) in
    let checked =
      if verify_checksums
      then (if actual == crc then block else (corruption (bytes "block checksum mismatch") [], []))
      else block in
    if not (status_ok s)
    then (s, [])
    else if not (length contents == (n + 5) % 2 ^ 64)
    then (corruption (bytes "truncated block read") [], [])
    else checked
