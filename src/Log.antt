-- ===== src/Log.antt =====
-- Enclave/leveldb/db/log_format.h and log_writer.cpp: records written in blocks of 32 KB, cut into fragments. The file and
-- the CRC are those of TableBuilder.
pub mod Reader
pub mod Records
pub mod Fragments
pub mod Parts
pub mod Physical
pub mod RoundTrip
pub mod Replay
use e_lsm_p.Base.{
  ℕ, zero, suc, ◌+◌, ◌-◌, ◌*◌, ◌/◌, ◌%◌, ◌^◌, Bool, true, false, not, ◌&&◌, List, [], ◌∷◌, ◌++◌,
  length, take, drop, replicate, ltb, leb, ◌==◌, if◌then◌else◌, Option, none, some,
}
use e_lsm_p.Coding.Fixed.{encode_fixed32}
use e_lsm_p.Status.{Status, ok, status_ok}
use e_lsm_p.TableBuilder.{WritableFile, Crc}
use e_lsm_p.TableFormat.{mask}

-- RecordType.
abbrev pub zero_type : ℕ
zero_type = 0

abbrev pub full_type : ℕ
full_type = 1

abbrev pub first_type : ℕ
first_type = 2

abbrev pub middle_type : ℕ
middle_type = 3

abbrev pub last_type : ℕ
last_type = 4

abbrev pub max_record_type : ℕ
max_record_type = last_type

abbrev pub block_size : ℕ
block_size = 32768

abbrev pub header_size : ℕ
header_size = 4 + 2 + 1

-- dest_ and block_offset_.
pub record Writer (F : Type 0) : Type 0 where
  pub dest : F
  pub block_offset : ℕ

-- The type of a fragment that begins the record or not, and ends it or not.
abbrev pub fragment_type : Bool → Bool → ℕ
fragment_type true true = full_type
fragment_type true false = first_type
fragment_type false true = last_type
fragment_type false false = middle_type

abbrev pub fragment_length : ℕ → ℕ → ℕ
fragment_length left avail = if ltb left avail then left else avail

module _ (crc : Crc) where
  -- The header: the masked checksum of the type, extended by the payload, the length, and the type.
  unfoldable pub header : ℕ → List ℕ → List ℕ
  unfolding encode_fixed32 mask
  header t s =
      let n = length s in
      encode_fixed32 (mask (crc.extend (crc.value (t ∷ [])) s))
      ++ (n % 256 ∷ n / 256 % 256 ∷ t ∷ [])

module _ {F : Type 0} (out : WritableFile F) (crc : Crc) where
  -- Writer::Writer on a file of that length.
  unfoldable pub new_writer : F → ℕ → Writer F
  new_writer dest dest_length = record { dest = dest; block_offset = dest_length % block_size }

  abbrev pub then_flush : Status × F → Status × F
  then_flush (none, f) = out.flush f
  then_flush (some state, f) = (some state, f)

  abbrev pub then_payload : List ℕ → Status × F → Status × F
  then_payload s (none, f) = then_flush (out.append f s)
  then_payload s (some state, f) = (some state, f)

  unfoldable pub emit_physical_record : ℕ → List ℕ → Writer F → Status × Writer F
  unfolding header
  emit_physical_record t s w =
      let (status, dest) = then_payload s (out.append w.dest (header crc t s)) in
      (status, record { dest = dest; block_offset = w.block_offset + (header_size + length s) })

  -- The switch to a new block where no header fits. The status of Append is not looked at.
  unfoldable pub switch_block : Writer F → Writer F
  switch_block w =
      let leftover = block_size - w.block_offset in
      let (status, filled) = out.append w.dest (replicate leftover 0) in
      if ltb leftover header_size
      then (if ltb 0 leftover
          then record { dest = filled; block_offset = 0 }
          else record { dest = w.dest; block_offset = 0 })
      else w

  -- The end of a turn of the loop, with what a further turn would do.
  abbrev pub go_on :
      (Writer F → Option (Status × Writer F))
      → List ℕ
      → Status × Writer F
      → Option (Status × Writer F)
  go_on further left (status, w) =
      if status_ok status && ltb 0 (length left) then further w else some (status, w)

  -- The loop of AddRecord, with the rounds that are left. `none` is out of rounds.
  unfoldable pub add_loop : ℕ → Bool → List ℕ → Writer F → Option (Status × Writer F)
  unfolding emit_physical_record switch_block
  add_loop zero begin s w = none
  add_loop (suc rounds) begin s w =
      let w' = switch_block w in
      let n = fragment_length (length s) (block_size - w'.block_offset - header_size) in
      go_on (add_loop rounds false (drop n s)) (drop n s)
        (emit_physical_record (fragment_type begin (length s == n)) (take n s) w')

  -- A round takes a byte or more, unless just a header fits into the block, and the round after that does.
  unfoldable pub add_record : List ℕ → Writer F → Option (Status × Writer F)
  unfolding add_loop
  add_record s w = add_loop (2 + length s) true s w
