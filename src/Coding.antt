-- ===== src/Coding.antt =====
-- Enclave/leveldb/util/coding.h and coding.cpp: fixed-width and variable-width integers, and
-- length-prefixed strings. A byte is a number below 256, a string or a buffer is a list of bytes,
-- and a pointer with its limit is the list of the bytes between them.
pub mod Fixed
pub mod Varint
