-- ===== src/Log/Reader.antt =====
-- Enclave/leveldb/db/log_reader.cpp and log_reader.h: the records of a log, read back block by block. What the Reporter is
-- told is a list; `initial_offset` and the offsets are uint64_t.
use e_lsm_p.Base.{
  ℕ, zero, suc, ◌+◌, ◌-◌, ◌*◌, ◌%◌, ◌^◌, Bool, true, false, not, ◌&&◌, List, [], ◌∷◌, ◌++◌, length,
  take, drop, get_or, ltb, leb, ◌==◌, if◌then◌else◌, Option, none, some,
}
use e_lsm_p.Coding.Fixed.{decode_fixed32}
use e_lsm_p.Status.{Status, corruption, bytes}
use e_lsm_p.TableBuilder.{Crc}
use e_lsm_p.TableFormat.{unmask}
use e_lsm_p.Log.{block_size, header_size, zero_type, max_record_type}

-- SequentialFile, as the reader calls it.
pub record SequentialFile (F : Type 0) : Type 0 where
  pub read : ℕ → F → Status × List ℕ × F
  pub skip : ℕ → F → Status × F

abbrev pub eof_type : ℕ
eof_type = max_record_type + 1

abbrev pub bad_record : ℕ
bad_record = max_record_type + 2

pub record Reader (F : Type 0) : Type 0 where
  pub file : F
  pub buffer : List ℕ
  pub eof : Bool
  pub last_record_offset : ℕ
  pub end_of_buffer_offset : ℕ
  pub resyncing : Bool
  pub reports : List (ℕ × Status)

-- The type of a physical record, its fragment, and the reader behind it.
abbrev pub Physical : Type 0 → Type 0
Physical F = ℕ × List ℕ × Reader F

-- A uint64_t difference.
abbrev pub minus64 : ℕ → ℕ → ℕ
minus64 a b = (a + (2 ^ 64 - b % 2 ^ 64)) % 2 ^ 64

-- A char that is widened to unsigned int, with its sign.
abbrev pub widened : ℕ → ℕ
widened c = if ltb c 128 then c else 2 ^ 32 - 256 + c

module _ {F : Type 0} (initial_offset : ℕ) where
  unfoldable pub new_reader : F → Reader F
  new_reader file = record {
    file = file;
    buffer = [];
    eof = false;
    last_record_offset = 0;
    end_of_buffer_offset = 0;
    resyncing = ltb 0 initial_offset;
    reports = [];
  }

  -- ReportDrop; the reporter is there.
  unfoldable pub report_drop : ℕ → Status → Reader F → Reader F
  report_drop n reason r =
      let at = minus64 (minus64 r.end_of_buffer_offset (length r.buffer)) n in
      if leb initial_offset at then record r { reports = r.reports ++ ((n, reason) ∷ []) } else r

  abbrev pub report_corruption : ℕ → List ℕ → Reader F → Reader F
  report_corruption n reason r = report_drop n (corruption reason []) r

  -- What a read of a block leaves, and whether it failed.
  abbrev pub after_block : Reader F → Status × List ℕ × F → Bool × Reader F
  after_block r (none, block, file) =
      let end = (r.end_of_buffer_offset + length block) % 2 ^ 64 in
      (
        false,
        record r {
          file = file;
          buffer = block;
          end_of_buffer_offset = end;
          eof = ltb (length block) block_size;
        },
      )
  after_block r (some state, block, file) =
      let end = (r.end_of_buffer_offset + length block) % 2 ^ 64 in
      let dropped =
        report_drop block_size (some state)
          (record r { file = file; buffer = []; end_of_buffer_offset = end }) in
      (true, record dropped { eof = true })

module _ {F : Type 0} (crc : Crc) (checksum : Bool) (initial_offset : ℕ) where
  -- The part of ReadPhysicalRecord that takes a record from a buffer with a header in it: its type, and the
  -- fragment.
  unfoldable pub parse_physical : Reader F → Physical F
  parse_physical r =
      let type = widened (get_or r.buffer 6 0) in
      let n = get_or r.buffer 4 0 + get_or r.buffer 5 0 * 2 ^ 8 in
      let size = length r.buffer in
      let cleared = record r { buffer = [] } in
      let too_long : Physical F = if r.eof then (eof_type, [], cleared) else (
        bad_record,
        [],
        report_corruption initial_offset size (bytes "bad record length") cleared,
      ) in
      let expected_crc = unmask (decode_fixed32 r.buffer) in
      let actual_crc = crc.value (take (1 + n) (drop 6 r.buffer)) in
      let mismatch : Physical F = (
        bad_record,
        [],
        report_corruption initial_offset size (bytes "checksum mismatch") cleared,
      ) in
      let rest = drop (header_size + n) r.buffer in
      let begins = minus64 (minus64 (minus64 r.end_of_buffer_offset (length rest)) header_size) n in
      let taken : Physical F =
        if ltb begins initial_offset
        then (bad_record, [], record r { buffer = rest })
        else (type, take n (drop header_size r.buffer), record r { buffer = rest }) in
      if ltb size (header_size + n)
      then too_long
      else if (type == zero_type) && (n == 0)
      then (bad_record, [], cleared)
      else if checksum && not (actual_crc == expected_crc)
      then mismatch
      else taken

module _ {F : Type 0} (input : SequentialFile F) (crc : Crc) (checksum : Bool)
    (initial_offset : ℕ) where
  -- ReadPhysicalRecord: a buffer without a header is read again while the file has not ended, which takes two
  -- rounds more. `none` is out of rounds.
  unfoldable pub physical_loop : ℕ → Reader F → Option (Physical F)
  unfolding parse_physical report_drop
  physical_loop zero r = none
  physical_loop (suc rounds) r =
      let (failed, filled) = after_block initial_offset r (input.read block_size r.file) in
      let again = physical_loop rounds filled in
      let parsed = some (parse_physical crc checksum initial_offset r) in
      if ltb (length r.buffer) header_size
      then (if r.eof
          then some (eof_type, [], record r { buffer = [] })
          else if failed
          then some (eof_type, [], filled)
          else again)
      else parsed

  unfoldable pub read_physical_record : Reader F → Option (Physical F)
  read_physical_record r = physical_loop 3 r

module _ {F : Type 0} (input : SequentialFile F) (initial_offset : ℕ) where
  -- SkipToInitialBlock: false where the file cannot skip.
  abbrev pub after_skip : ℕ → Reader F → Status × F → Bool × Reader F
  after_skip start r (none, file) = (true, record r { file = file })
  after_skip start r (some state, file) =
      (false, report_drop initial_offset start (some state) (record r { file = file }))

  unfoldable pub skip_to_initial_block : Reader F → Bool × Reader F
  unfolding report_drop
  skip_to_initial_block r =
      let offset_in_block = initial_offset % block_size in
      let in_trailer = ltb (block_size - 6) offset_in_block in
      let block_start = initial_offset - offset_in_block in
      let start = if in_trailer then block_start + block_size else block_start in
      let skipped =
        after_skip start (record r { end_of_buffer_offset = start }) (input.skip start r.file) in
      if ltb 0 start then skipped else (true, record r { end_of_buffer_offset = start })
