-- ===== src/TableBuilder.antt =====
-- Enclave/leveldb/table/table_builder.cpp: writing a table. The file, the filter block, the CRC and
-- Snappy are parameters.
pub mod Blocks
use e_lsm_p.Base.{
  ℕ, zero, suc, ◌+◌, ◌-◌, ◌*◌, ◌/◌, ◌%◌, ◌^◌, Bool, true, false, not, Option, none, some, List, [],
  ◌∷◌, ◌++◌, length, ltb, leb, ◌==◌, if◌then◌else◌,
}
use e_lsm_p.Coding.Fixed.{put_fixed32}
use e_lsm_p.Comparator.{Comparator}
use e_lsm_p.Status.{Status, ok, status_ok, bytes}
use e_lsm_p.Block.{BlockBuilder, new_block_builder, reset, current_size_estimate}
use e_lsm_p.Block
use e_lsm_p.TableFormat.{
  BlockHandle, new_block_handle, encode_handle, Footer, encode_footer, mask, Snappy,
}

-- WritableFile.
pub record WritableFile (F : Type 0) : Type 0 where
  pub append : F → List ℕ → Status × F
  pub flush : F → Status × F

-- FilterBlockBuilder.
pub record FilterBuilder (B : Type 0) : Type 0 where
  pub add_key : B → List ℕ → B
  pub start_block : B → ℕ → B
  pub finish : B → List ℕ

-- crc32c::Value and crc32c::Extend.
pub record Crc : Type 0 where
  pub value : List ℕ → ℕ
  pub extend : ℕ → List ℕ → ℕ

-- The fields of Options that the builder reads; `snappy` is the choice of compression.
pub record Options : Type 0 where
  pub comparator : Comparator
  pub block_size : ℕ
  pub block_restart_interval : ℕ
  pub snappy : Bool
  pub filter_name : List ℕ

pub record Rep (F B : Type 0) : Type 0 where
  pub file : F
  pub offset : ℕ
  pub status : Status
  pub data_block : BlockBuilder
  pub index_block : BlockBuilder
  pub last_key : List ℕ
  pub num_entries : ℕ
  pub closed : Bool
  pub filter_block : Option B
  pub pending_index_entry : Bool
  pub pending_handle : BlockHandle

-- The contents and the type that WriteBlock chooses, for what Snappy makes of the block.
abbrev pub compressed : List ℕ → Option (List ℕ) → List ℕ × ℕ
compressed raw none = (raw, 0)
compressed raw (some smaller) =
    if ltb (length smaller) (length raw - length raw / 8) then (smaller, 1) else (raw, 0)

abbrev pub choose : Snappy → Bool → List ℕ → List ℕ × ℕ
choose snappy true raw = compressed raw (snappy.compress raw)
choose snappy false raw = (raw, 0)

module _ {F B : Type 0} (out : WritableFile F) (filters : FilterBuilder B) (crc : Crc)
    (snappy : Snappy) (options : Options) where
  abbrev pub with_filter : (B → B) → Option B → Option B
  with_filter f none = none
  with_filter f (some b) = some (f b)

  -- TableBuilder::WriteRawBlock; the handle that it sets is returned.
  unfoldable pub write_raw_block : List ℕ → ℕ → Rep F B → BlockHandle × Rep F B
  unfolding mask
  write_raw_block contents type r =
      let handle : BlockHandle = record { offset = r.offset; size = length contents } in
      let (s, file) = out.append r.file contents in
      let sum = crc.extend (crc.value contents) (type ∷ []) in
      let (s', file') = out.append file (type ∷ put_fixed32 [] (mask sum)) in
      if status_ok s
      then (
        handle,
        record r {
          file = file';
          status = s';
          offset = if status_ok s' then (r.offset + length contents + 5) % 2 ^ 64 else r.offset;
        },
      )
      else (handle, record r { file = file; status = s })

  -- TableBuilder::WriteBlock; the block is given back reset.
  unfoldable pub write_block : BlockBuilder → Rep F B → BlockBuilder × (BlockHandle × Rep F B)
  unfolding write_raw_block
  write_block block r =
      let raw = (Block.finish block).buffer in
      let (contents, type) = choose snappy options.snappy raw in
      (reset block, write_raw_block contents type r)

  -- TableBuilder::Flush.
  unfoldable pub flush : Rep F B → Rep F B
  unfolding write_block
  flush r =
      let (block, (handle, r')) = write_block r.data_block r in
      let (s, file) = out.flush r'.file in
      let written : Rep F B =
        if status_ok r'.status
        then record r' {
          data_block = block;
          pending_handle = handle;
          pending_index_entry = true;
          file = file;
          status = s;
        }
        else record r' { data_block = block; pending_handle = handle } in
      let started : Rep F B = record written {
        filter_block = with_filter (λ b. filters.start_block b written.offset) written.filter_block;
      } in
      if not (status_ok r.status) then r else if length r.data_block.buffer == 0 then r else started

  -- The index entry of the block before, under the key that separates it from what follows.
  unfoldable pub add_index : List ℕ → Rep F B → Rep F B
  unfolding encode_handle
  add_index separator r =
      if r.pending_index_entry
      then record r {
        last_key = separator;
        index_block = Block.add 1 r.index_block separator (encode_handle r.pending_handle []);
        pending_index_entry = false;
      }
      else r

  -- TableBuilder::Add.
  unfoldable pub add : List ℕ → List ℕ → Rep F B → Rep F B
  unfolding add_index flush
  add key value r =
      let indexed = add_index (options.comparator.find_shortest_separator r.last_key key) r in
      let added : Rep F B = record indexed {
        filter_block = with_filter (λ b. filters.add_key b key) indexed.filter_block;
        last_key = key;
        num_entries = indexed.num_entries + 1;
        data_block = Block.add options.block_restart_interval indexed.data_block key value;
      } in
      let flushed = flush added in
      if not (status_ok r.status)
      then r
      else if leb options.block_size (current_size_estimate added.data_block)
      then flushed
      else added

  abbrev pub write_filter : Option B → Rep F B → BlockHandle × Rep F B
  write_filter none r = (new_block_handle, r)
  write_filter (some b) r = write_raw_block (filters.finish b) 0 r

  abbrev pub metaindex : Option B → BlockHandle → BlockBuilder
  metaindex none handle = new_block_builder
  metaindex (some b) handle =
      Block.add options.block_restart_interval new_block_builder
        (bytes "filter." ++ options.filter_name) (encode_handle handle [])

  unfoldable pub write_metaindex : BlockHandle → Rep F B → BlockHandle × Rep F B
  unfolding write_block
  write_metaindex filter_handle r = (write_block (metaindex r.filter_block filter_handle) r).1

  unfoldable pub write_index : Rep F B → BlockHandle × Rep F B
  unfolding write_block add_index
  write_index r =
      let indexed = add_index (options.comparator.find_short_successor r.last_key) r in
      let (block, (handle, r')) = write_block indexed.index_block indexed in
      (handle, record r' { index_block = block })

  -- `none` would be the failure of EncodeTo's assertion, which holds behind an empty string.
  abbrev pub append_footer : Rep F B → Option (List ℕ) → Rep F B
  append_footer r none = r
  append_footer r (some footer) =
      let (s, file) = out.append r.file footer in
      record r {
        file = file;
        status = s;
        offset = if status_ok s then (r.offset + length footer) % 2 ^ 64 else r.offset;
      }

  unfoldable pub write_footer : BlockHandle → BlockHandle → Rep F B → Rep F B
  unfolding encode_footer
  write_footer metaindex_handle index_handle r = append_footer r (
      encode_footer (record { metaindex_handle = metaindex_handle; index_handle = index_handle })
        [])

  abbrev pub if_ok : Rep F B → BlockHandle × Rep F B → BlockHandle × Rep F B
  if_ok r done = if status_ok r.status then done else (new_block_handle, r)

  -- TableBuilder::Finish; the status it returns is that of the result.
  unfoldable pub finish : Rep F B → Rep F B
  unfolding flush write_raw_block write_metaindex write_index write_footer
  finish r =
      let flushed = flush r in
      let r0 : Rep F B = record flushed { closed = true } in
      let (filter_handle, r1) = if_ok r0 (write_filter r0.filter_block r0) in
      let (metaindex_handle, r2) = if_ok r1 (write_metaindex filter_handle r1) in
      let (index_handle, r3) = if_ok r2 (write_index r2) in
      let r4 = write_footer metaindex_handle index_handle r3 in
      if status_ok r3.status then r4 else r3

  unfoldable pub abandon : Rep F B → Rep F B
  abandon r = record r { closed = true }
