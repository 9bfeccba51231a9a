-- ===== src/Builder.antt =====
-- Enclave/leveldb/db/builder.cpp: BuildTable, which writes a table file together with the Merkle
-- tree over its records.
pub mod Tree
pub mod Table
