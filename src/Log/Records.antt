-- ===== src/Log/Records.antt =====
-- ReadRecord of Enclave/leveldb/db/log_reader.cpp: the fragments put together.
use e_lsm_p.Base.{
  ℕ, zero, suc, ◌+◌, Bool, true, false, ◌&&◌, List, [], ◌++◌, length, ltb, ◌==◌, if◌then◌else◌,
  Option, none, some,
}
use e_lsm_p.Status.{bytes}
use e_lsm_p.TableBuilder.{Crc}
use e_lsm_p.Log.{header_size, full_type, first_type, middle_type, last_type}
use e_lsm_p.Log.Reader.{
  SequentialFile, Reader, Physical, eof_type, bad_record, minus64, report_drop, report_corruption,
  read_physical_record, skip_to_initial_block,
}

-- The variables of ReadRecord: *scratch, in_fragmented_record and prospective_record_offset.
pub record Pending : Type 0 where
  pub scratch : List ℕ
  pub in_fragmented_record : Bool
  pub prospective_record_offset : ℕ

abbrev pub nothing_pending : Pending
nothing_pending = record {
  scratch = [];
  in_fragmented_record = false;
  prospective_record_offset = 0;
}

-- What a turn of the loop of ReadRecord ends in: the record, or no record, or another turn.
pub data Turn (F : Type 0) : Type 0 where
  found : List ℕ → Reader F → Turn F
  ended : Reader F → Turn F
  again : Pending → Reader F → Turn F

abbrev pub physical_record_offset : {F : Type 0} → Reader F → List ℕ → ℕ
physical_record_offset r fragment =
    minus64 (minus64 (minus64 r.end_of_buffer_offset (length r.buffer)) header_size)
      (length fragment)

module _ {F : Type 0} (initial_offset : ℕ) (number : ℕ → List ℕ) where
  -- The report of a record that another one cuts off.
  abbrev pub cut_off : List ℕ → Pending → Reader F → Reader F
  cut_off reason p r =
      if p.in_fragmented_record && ltb 0 (length p.scratch)
      then report_corruption initial_offset (length p.scratch) reason r
      else r

  -- The cases of the switch on the type of the record.
  abbrev pub full_record : List ℕ → ℕ → Pending → Reader F → Turn F
  full_record fragment offset p r =
      found fragment (record (cut_off (bytes "partial record without end(1)") p r) {
        last_record_offset = offset;
      })

  abbrev pub first_fragment : List ℕ → ℕ → Pending → Reader F → Turn F
  first_fragment fragment offset p r =
      again
        (record {
          scratch = fragment;
          in_fragmented_record = true;
          prospective_record_offset = offset;
        })
        (cut_off (bytes "partial record without end(2)") p r)

  abbrev pub middle_fragment : List ℕ → Pending → Reader F → Turn F
  middle_fragment fragment p r =
      if p.in_fragmented_record
      then again (record p { scratch = p.scratch ++ fragment }) r
      else again p (
          report_corruption initial_offset (length fragment)
            (bytes "missing start of fragmented record(1)") r)

  abbrev pub last_fragment : List ℕ → Pending → Reader F → Turn F
  last_fragment fragment p r =
      if p.in_fragmented_record
      then found (p.scratch ++ fragment)
          (record r { last_record_offset = p.prospective_record_offset })
      else again p (
          report_corruption initial_offset (length fragment)
            (bytes "missing start of fragmented record(2)") r)

  abbrev pub bad_fragment : Pending → Reader F → Turn F
  bad_fragment p r =
      if p.in_fragmented_record
      then again (record p { scratch = []; in_fragmented_record = false })
          (report_corruption initial_offset (length p.scratch) (bytes "error in middle of record")
            r)
      else again p r

  abbrev pub unknown_fragment : ℕ → List ℕ → Pending → Reader F → Turn F
  unknown_fragment type fragment p r =
      let n = length fragment + (if p.in_fragmented_record then length p.scratch else 0) in
      again (record p { scratch = []; in_fragmented_record = false })
        (report_corruption initial_offset n (bytes "unknown record type " ++ number type) r)

  unfoldable pub switch_type : ℕ → List ℕ → ℕ → Pending → Reader F → Turn F
  unfolding report_drop
  switch_type type fragment offset p r =
      if type == full_type
      then full_record fragment offset p r
      else if type == first_type
      then first_fragment fragment offset p r
      else if type == middle_type
      then middle_fragment fragment p r
      else if type == last_type
      then last_fragment fragment p r
      else if type == eof_type
      then ended r
      else if type == bad_record
      then bad_fragment p r
      else unknown_fragment type fragment p r

  -- The runs that resyncing skips.
  unfoldable pub turn : ℕ → List ℕ → Pending → Reader F → Turn F
  unfolding switch_type
  turn type fragment p r =
      let offset = physical_record_offset r fragment in
      let synced = record r { resyncing = false } in
      if r.resyncing && (type == middle_type)
      then again p r
      else if r.resyncing && (type == last_type)
      then again p synced
      else switch_type type fragment offset p synced

-- `number` is the %u of snprintf.
module _ {F : Type 0} (input : SequentialFile F) (crc : Crc) (checksum : Bool) (initial_offset : ℕ)
    (number : ℕ → List ℕ) where
  abbrev pub Result : Type 0
  Result = Option (Option (List ℕ) × Reader F)

  abbrev pub next_turn : (Pending → Reader F → Result) → Turn F → Result
  next_turn go (found s r) = some (some s, r)
  next_turn go (ended r) = some (none, r)
  next_turn go (again p r) = go p r

  abbrev pub turn_of : (Pending → Reader F → Result) → Pending → Option (Physical F) → Result
  turn_of go p none = none
  turn_of go p (some (type, fragment, r)) =
      next_turn go (turn initial_offset number type fragment p r)

  -- The loop of ReadRecord, with the rounds that are left: the record if there is one. The outer `none` is out
  -- of rounds.
  unfoldable pub read_loop : ℕ → Pending → Reader F → Result
  unfolding read_physical_record turn
  read_loop zero p r = none
  read_loop (suc rounds) p r =
      turn_of (read_loop rounds) p (read_physical_record input crc checksum initial_offset r)

  unfoldable pub read_record : ℕ → Reader F → Result
  unfolding read_loop skip_to_initial_block
  read_record rounds r =
      let (there, skipped) = skip_to_initial_block input initial_offset r in
      let read_on = read_loop rounds nothing_pending r in
      let read_there = read_loop rounds nothing_pending skipped in
      if ltb r.last_record_offset initial_offset
      then (if there then read_there else some (none, skipped))
      else read_on
