-- ===== src/Lib.antt =====
-- A verification library for the storage engine of eLSM-P2: a LevelDB that runs in an SGX enclave and keeps
-- a Merkle tree for every file of records.
--
-- How the parts interact. A WriteBatch (Enclave/leveldb/db/write_batch.cpp) is a string of updates;
-- InsertInto walks it and adds one entry for each update to the MemTable (db/memtable.cpp), under internal
-- keys that carry a sequence number and are ordered by the comparator of db/dbformat.cpp. BuildTable
-- (db/builder.cpp) takes an iterator over such a table, hashes its records into a Merkle tree, and hands
-- each record with its proof to a TableBuilder (table/table_builder.cpp), which fills blocks
-- (table/block_builder.cpp), writes them with a checksum and ends the file with a footer
-- (table/format.cpp). A VersionEdit (db/version_edit.cpp) records the new file, and the Builder of
-- db/version_set.cpp makes the next version of it; Version::Get looks for the file that may hold a key, and
-- a compaction picks the files to merge. Updates and edits go to a log (db/log_writer.cpp), which is read
-- back after a restart. Reads go through the TableCache (db/table_cache.cpp), ReadBlock (table/format.cpp)
-- and the iterator of a block (table/block.cpp). Numbers, strings and errors have the encodings of
-- util/coding.cpp and util/status.cpp.
--
-- The files. Paths of the code are below Enclave/leveldb.
-- - Base: shared names; Base/Tests Boolean tests and the do blocks of Option, Base/Lists lists over the
--   native numbers, Base/Bits the bitwise operations.
-- - Coding: util/coding.cpp and coding.h. Coding/Fixed has EncodeFixed32 to DecodeFixed64 (encode_fixed32
--   to decode_fixed64; the two branches on port::kLittleEndian are one definition with a Boolean), and
--   Coding/Varint the variable-length numbers and GetLengthPrefixedSlice.
-- - Comparator: include/leveldb/comparator.h as a record with its contract, and util/comparator.cpp. What a
--   store into a char keeps of a number is its remainder by 256.
-- - DbFormat: db/dbformat.cpp and dbformat.h. ParseInternalKey is parse_internal_key, the class
--   InternalKeyComparator is internal_key_comparator, LookupKey is lookup_key.
-- - Status: include/leveldb/status.h and util/status.cpp; a Status is the option of its state_ array.
-- - WriteBatch: db/write_batch.cpp, a batch being the bytes of rep_; Iterate is iterate over a Handler.
-- - MemTable: db/memtable.cpp and MemTableInserter; the skip list is the interface Table.
-- - VersionEdit: db/version_edit.cpp and version_edit.h; EncodeTo is encode_to, DecodeFrom is decode_from.
-- - Builder: db/builder.cpp. Builder/Tree has the loops over the buffer `merkle` (slot p is merkle + 16 * p),
--   Builder/Table the function BuildTable around them.
-- - TableBuilder: table/table_builder.cpp over the interfaces WritableFile, FilterBuilder, Crc, Snappy.
-- - Block: table/block_builder.cpp, and of table/block.cpp DecodeEntry and the forward walk of Block::Iter.
-- - TableFormat: table/format.cpp and format.h, and Mask and Unmask of util/crc32c.h.
-- - TableCache: db/table_cache.cpp; Cache, Env and Table are the interface Tables.
-- - Bloom: util/hash.cpp and util/bloom.cpp.
-- - Log: db/log_format.h and log_writer.cpp, AddRecord being add_record; Log/Reader and Log/Records have
--   db/log_reader.cpp, ReadPhysicalRecord being read_physical_record and ReadRecord read_record. Log/Fragments
--   has the relation between a record and its bytes, Log/Replay a log written and read whole.
-- - FileNames: db/filename.cpp and the decimal numbers of util/logging.cpp; ParseFileName is parse_file_name.
-- - Version: db/version_set.cpp, the class Version as its files by level (Files). FindFile is find_file,
--   GetOverlappingInputs is get_overlapping_inputs; Version/Search has Version::Get, ForEachOverlapping,
--   UpdateStats and RecordReadSample, Version/Pick PickLevelForMemTableOutput, Version/Builder the class
--   VersionSet::Builder. A FileMetaData is a value, so the file that UpdateStats charges is given back.
-- - Compaction: the class Compaction, GetRange (its bounds are in Compaction/Inputs/Range), SetupOtherInputs, CompactRange and PickCompaction of the same file,
--   with IsBaseLevelForKey in Compaction/BaseLevel and ShouldStopBefore in Compaction/Grandparents.
-- - VersionSet: LogAndApply of the same file, log_and_apply, with what the environment and the log answer.
-- - Examples: the theorems at concrete inputs.
-- In each of them the file of the part has the definitions, and the modules below it the proofs, named for
-- what they prove.
--
-- Conventions. A Slice or a std::string is the list of its bytes, a pointer into one is the list from there
-- on. Numbers are natural numbers with the wrap-around of uint32_t, uint64_t and size_t written out. A C
-- function that returns false or NULL gives `none`, and so does EncodeTo of a footer where its assertion fails.
--
-- Bounds and fuel. encode_varint64 has nine rounds of its loop behind the first byte, and ten bytes hold 64
-- bits; iterate has as many rounds as the batch has bytes, and decode_from as many as its input, since
-- every turn reads a tag; advance_restart has num_restarts rounds, since the index only grows and stays
-- below that number. add_record has two rounds more than the record has bytes, since a fragment is empty
-- only where just a header fits into a block; ReadPhysicalRecord reads one block at most and turns three
-- times. The digits of a uint64_t take 20 rounds. find_file has as many rounds as files, each of which
-- shortens the range, and gives `none` if it runs out of them; file_index is what its callers get; get_overlapping_inputs has two restarts for each file, since a restart moves one end
-- of the range to the end of a file that reached beyond it. Sums of file sizes are taken to stay below 2 ^
-- 63. The height and the number of leaves of a tree are parameters: the code has 15 and 32768.
--
-- Parameters. sgx_rijndael128_cmac_msg is `cmac`, of which only the length of its result is used; binding
-- ends in an explicit collision, so no strength of the code is assumed. The CRC, Snappy, files, the
-- environment, the skip list and the LRU cache are interfaces, whose laws stand in IsCache, Relies, IsWritable, IsReadable and IsCrc.
--
-- Not modelled: of the versions (db/version_set.cpp) Recover, Finalize and the iterators, the
-- database (db/db_impl.cpp), the iterators, Table (table/table.cpp), the skip list, the LRU cache, the
-- arena; and, as input and output or tools, the environment, the enclave's entry points
-- (Enclave/Enclave.cpp), the application (App), repair, the C bindings and the benchmarks.
pub mod Base
pub mod Block
pub mod Bloom
pub mod Builder
pub mod Coding
pub mod Compaction
pub mod Comparator
pub mod DbFormat
pub mod Examples
pub mod FileNames
pub mod Log
pub mod MemTable
pub mod Status
pub mod TableBuilder
pub mod TableCache
pub mod TableFormat
pub mod Version
pub mod VersionEdit
pub mod VersionSet
pub mod WriteBatch
