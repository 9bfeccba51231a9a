-- ===== src/DbFormat.antt =====
-- Enclave/leveldb/db/dbformat.h and dbformat.cpp: internal keys, their comparator, and the keys
-- that DBImpl::Get looks up.
pub mod Keys
pub mod Order
pub mod Lookup
use Prim.Native.Nat.{compare, Ordering}
use e_lsm_p.Base.{
  ℕ, zero, suc, ◌+◌, ◌-◌, ◌*◌, ◌/◌, ◌%◌, ◌^◌, ◌<◌, bit_or, Bool, true, false, Option, none, some,
  List, [], ◌∷◌, ◌++◌, length, take, drop, ltb, leb, if◌then◌else◌, ◌&&◌,
}
use e_lsm_p.Coding.Fixed.{encode_fixed64, put_fixed64, decode_fixed64}
use e_lsm_p.Coding.Varint.{encode_varint32}
use e_lsm_p.Comparator.{Comparator}

pub data ValueType : Type 0 where
  type_deletion type_value : ValueType

-- The enum's values, which are embedded in the files.
abbrev pub type_code : ValueType → ℕ
type_code type_deletion = 0x0
type_code type_value = 0x1

abbrev pub value_type_for_seek : ValueType
value_type_for_seek = type_value

abbrev pub max_sequence_number : ℕ
max_sequence_number = 2 ^ 56 - 1

pub record ParsedInternalKey : Type 0 where
  pub user_key : List ℕ
  pub sequence : ℕ
  pub type : ValueType

-- `(seq << 8) | t`; the two assertions are conditions of the theorems.
unfoldable pub pack_sequence_and_type : ℕ → ValueType → ℕ
pack_sequence_and_type seq t = bit_or (seq * 2 ^ 8 % 2 ^ 64) (type_code t)

unfoldable pub append_internal_key : List ℕ → ParsedInternalKey → List ℕ
unfolding put_fixed64 pack_sequence_and_type
append_internal_key result key =
    put_fixed64 (result ++ key.user_key) (pack_sequence_and_type key.sequence key.type)

-- The last eight bytes are cut off; a shorter key breaks the assertion.
unfoldable pub extract_user_key : List ℕ → List ℕ
extract_user_key internal_key = take (length internal_key - 8) internal_key

-- The number that the last eight bytes hold.
unfoldable pub extract_tag : List ℕ → ℕ
unfolding decode_fixed64
extract_tag internal_key = decode_fixed64 (drop (length internal_key - 8) internal_key)

-- `static_cast<ValueType>(c)` with the test `c <= kTypeValue`.
abbrev pub type_of_code : ℕ → Option ValueType
type_of_code zero = some type_deletion
type_of_code (suc zero) = some type_value
type_of_code (suc (suc c)) = none

abbrev pub parsed_with : List ℕ → ℕ → Option ValueType → Option ParsedInternalKey
parsed_with user_key sequence none = none
parsed_with user_key sequence (some t) =
    some (record { user_key = user_key; sequence = sequence; type = t })

-- `none` stands for `false`.
unfoldable pub parse_internal_key : List ℕ → Option ParsedInternalKey
unfolding extract_user_key extract_tag
parse_internal_key internal_key =
    let n = length internal_key in
    let num = extract_tag internal_key in
    let parsed =
      parsed_with (extract_user_key internal_key) (num / 2 ^ 8) (type_of_code (num % 256)) in
    if ltb n 8 then none else parsed

-- InternalKeyComparator::Compare: equal user keys are ordered by decreasing tag.
abbrev pub or_by_tag : ℕ → ℕ → Ordering → Ordering
or_by_tag anum bnum Ordering.lt = Ordering.lt
or_by_tag anum bnum Ordering.eq =
    if ltb bnum anum then Ordering.lt else if ltb anum bnum then Ordering.gt else Ordering.eq
or_by_tag anum bnum Ordering.gt = Ordering.gt

abbrev pub is_lt : Ordering → Bool
is_lt Ordering.lt = true
is_lt Ordering.eq = false
is_lt Ordering.gt = false

-- The tag that is tacked on to a shortened user key.
abbrev pub earliest : List ℕ → List ℕ
earliest tmp = put_fixed64 tmp (pack_sequence_and_type max_sequence_number value_type_for_seek)

module _ (user : Comparator) where
  unfoldable pub internal_compare : List ℕ → List ℕ → Ordering
  unfolding extract_user_key extract_tag
  internal_compare akey bkey =
      or_by_tag (extract_tag akey) (extract_tag bkey)
        (user.compare (extract_user_key akey) (extract_user_key bkey))

  unfoldable pub internal_find_shortest_separator : List ℕ → List ℕ → List ℕ
  unfolding extract_user_key
  internal_find_shortest_separator start limit =
      let user_start = extract_user_key start in
      let tmp = user.find_shortest_separator user_start (extract_user_key limit) in
      if ltb (length tmp) (length user_start) && is_lt (user.compare user_start tmp)
      then earliest tmp
      else start

  unfoldable pub internal_find_short_successor : List ℕ → List ℕ
  unfolding extract_user_key
  internal_find_short_successor key =
      let user_key = extract_user_key key in
      let tmp = user.find_short_successor user_key in
      if ltb (length tmp) (length user_key) && is_lt (user.compare user_key tmp)
      then earliest tmp
      else key

  abbrev pub internal_key_comparator : Comparator
  internal_key_comparator = record {
    compare = internal_compare;
    find_shortest_separator = internal_find_shortest_separator;
    find_short_successor = internal_find_short_successor;
  }

-- The array of a LookupKey from `start_` to `end_`, and the offset of `kstart_` in it.
pub record LookupKey : Type 0 where
  pub start : List ℕ
  pub kstart : ℕ

unfoldable pub lookup_key : List ℕ → ℕ → LookupKey
unfolding pack_sequence_and_type encode_fixed64 encode_varint32
lookup_key user_key s =
    let dst = encode_varint32 ((length user_key + 8) % 2 ^ 32) in
    record {
      start = dst ++ (user_key ++ encode_fixed64 (pack_sequence_and_type s value_type_for_seek));
      kstart = length dst;
    }

unfoldable pub memtable_key : LookupKey → List ℕ
memtable_key k = k.start

unfoldable pub internal_key : LookupKey → List ℕ
internal_key k = drop k.kstart k.start

unfoldable pub user_key : LookupKey → List ℕ
unfolding internal_key
user_key k = take (length (internal_key k) - 8) (internal_key k)
