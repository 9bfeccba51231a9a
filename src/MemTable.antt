-- ===== src/MemTable.antt =====
-- Enclave/leveldb/db/memtable.cpp, and MemTableInserter of db/write_batch.cpp. The skip list of
-- db/skiplist.h is an interface: what it holds, and the entry that its Seek finds.
pub mod Gets
pub mod Inserts
use Prim.Native.Nat.{Ordering}
use e_lsm_p.Base.{
  ℕ, zero, suc, ◌+◌, ◌-◌, ◌*◌, ◌%◌, ◌^◌, bit_or, Bool, true, false, Option, none, some, List, [],
  ◌∷◌, ◌++◌, length, take, drop, ◌==◌, if◌then◌else◌,
}
use e_lsm_p.Coding.Fixed.{encode_fixed64, decode_fixed64}
use e_lsm_p.Coding.Varint.{encode_varint32, get_varint32_ptr}
use e_lsm_p.Comparator.{Comparator}
use e_lsm_p.DbFormat.{
  ValueType, type_value, type_deletion, type_code, LookupKey, memtable_key, user_key,
}
use e_lsm_p.Status.{Status, not_found}
use e_lsm_p.WriteBatch.{WriteBatch, Handler, sequence, iterate}

-- MemTable::Table: Insert, and the entry at which an iterator stands after Seek, if it is valid.
pub record Table (M : Type 0) : Type 0 where
  pub insert : M → List ℕ → M
  pub seek : M → List ℕ → Option (List ℕ)

-- The buffer that MemTable::Add fills.
unfoldable pub encode_entry : ℕ → ValueType → List ℕ → List ℕ → List ℕ
encode_entry s type key value =
    encode_varint32 ((length key + 8) % 2 ^ 32)
    ++ (key
        ++ (encode_fixed64 (bit_or (s * 2 ^ 8 % 2 ^ 64) (type_code type))
            ++ (encode_varint32 (length value % 2 ^ 32) ++ value)))

-- What Get answers: false, or true with the value, or true with the status NotFound. Bytes that are
-- no entry are not expected, and what Get would do with them is not defined.
pub data Answer : Type 0 where
  absent : Answer
  found : List ℕ → Answer
  deleted : Status → Answer
  undefined : Answer

-- GetLengthPrefixedSlice(const char*), and the value that Get assigns.
abbrev pub value_at : Option (ℕ × List ℕ) → Answer
value_at none = undefined
value_at (some (len, p)) = found (take len p)

abbrev pub by_tag_type : ℕ → List ℕ → Answer
by_tag_type zero rest = deleted (not_found [] [])
by_tag_type (suc zero) rest = value_at (get_varint32_ptr rest)
by_tag_type (suc (suc type)) rest = absent

abbrev pub if_same : Ordering → Answer → Answer
if_same Ordering.lt same = absent
if_same Ordering.eq same = same
if_same Ordering.gt same = absent

module _ (user : Comparator) where
  -- Get, behind the length of the key that the entry starts with.
  unfoldable pub get_parsed : List ℕ → Option (ℕ × List ℕ) → Answer
  get_parsed wanted none = undefined
  get_parsed wanted (some (key_length, key_ptr)) =
      let tag = decode_fixed64 (drop (key_length - 8) key_ptr) in
      if_same (user.compare (take (key_length - 8) key_ptr) wanted)
        (by_tag_type (tag % 256) (drop key_length key_ptr))

  unfoldable pub get_entry : List ℕ → Option (List ℕ) → Answer
  unfolding get_parsed
  get_entry wanted none = absent
  get_entry wanted (some entry) = get_parsed wanted (get_varint32_ptr entry)

module _ {M : Type 0} (table : Table M) where
  -- MemTable::Add.
  unfoldable pub add : ℕ → ValueType → List ℕ → List ℕ → M → M
  unfolding encode_entry
  add s type key value mem = table.insert mem (encode_entry s type key value)

  -- MemTable::Get.
  unfoldable pub get : Comparator → LookupKey → M → Answer
  unfolding get_entry
  get user key mem = get_entry user (user_key key) (table.seek mem (memtable_key key))

  -- MemTableInserter: the next sequence number, and the table.
  abbrev pub inserter : Handler (ℕ × M)
  inserter = record {
    on_put = λ key value s. ((s.0 + 1) % 2 ^ 64, add s.0 type_value key value s.1);
    on_delete = λ key s. ((s.0 + 1) % 2 ^ 64, add s.0 type_deletion key [] s.1);
  }

  -- WriteBatchInternal::InsertInto.
  unfoldable pub insert_into : WriteBatch → M → Option (Status × (ℕ × M))
  unfolding sequence iterate
  insert_into batch mem = iterate inserter batch (sequence batch, mem)
