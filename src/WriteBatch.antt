-- ===== src/WriteBatch.antt =====
-- Enclave/leveldb/db/write_batch.cpp and write_batch_internal.h: a batch of updates in one string,
-- `rep_`, and the walk over it. The handler is a record of functions on a state of its own.
pub mod Contents
pub mod Walk
use e_lsm_p.Base.{
  ℕ, zero, suc, ◌+◌, ◌%◌, ◌^◌, Bool, Option, none, some, List, [], ◌∷◌, ◌++◌, length, take, drop,
  replicate, ltb, ◌==◌, if◌then◌else◌,
}
use e_lsm_p.Coding.Fixed.{encode_fixed32, encode_fixed64, decode_fixed32, decode_fixed64}
use e_lsm_p.Coding.Varint.{put_length_prefixed_slice, get_length_prefixed_slice}
use e_lsm_p.DbFormat.{type_code, type_value, type_deletion}
use e_lsm_p.Status.{Status, ok, corruption, bytes}

-- An 8-byte sequence number followed by a 4-byte count.
abbrev pub header : ℕ
header = 12

abbrev pub WriteBatch : Type 0
WriteBatch = List ℕ

unfoldable pub clear : WriteBatch
clear = replicate header 0

unfoldable pub count : WriteBatch → ℕ
unfolding decode_fixed32
count rep = decode_fixed32 (drop 8 rep)

unfoldable pub set_count : WriteBatch → ℕ → WriteBatch
unfolding encode_fixed32
set_count rep n = take 8 rep ++ (encode_fixed32 (n % 2 ^ 32) ++ drop 12 rep)

unfoldable pub sequence : WriteBatch → ℕ
unfolding decode_fixed64
sequence rep = decode_fixed64 rep

unfoldable pub set_sequence : WriteBatch → ℕ → WriteBatch
unfolding encode_fixed64
set_sequence rep seq = encode_fixed64 seq ++ drop 8 rep

unfoldable pub put : WriteBatch → List ℕ → List ℕ → WriteBatch
unfolding set_count count put_length_prefixed_slice
put rep key value =
    put_length_prefixed_slice
      (put_length_prefixed_slice (set_count rep (count rep + 1) ++ (type_code type_value ∷ [])) key)
      value

unfoldable pub delete : WriteBatch → List ℕ → WriteBatch
unfolding set_count count put_length_prefixed_slice
delete rep key =
    put_length_prefixed_slice (set_count rep (count rep + 1) ++ (type_code type_deletion ∷ [])) key

unfoldable pub append : WriteBatch → WriteBatch → WriteBatch
unfolding set_count count
append dst src = set_count dst (count dst + count src) ++ drop header src

-- WriteBatch::Handler over a state.
pub record Handler (S : Type 0) : Type 0 where
  pub on_put : List ℕ → List ℕ → S → S
  pub on_delete : List ℕ → S → S

-- What one turn of the loop finds behind a tag.
pub data Read : Type 0 where
  put_record : List ℕ → List ℕ → List ℕ → Read
  delete_record : List ℕ → List ℕ → Read
  bad_record : Status → Read

read_value : List ℕ → Option (List ℕ × List ℕ) → Read
read_value key none = bad_record (corruption (bytes "bad WriteBatch Put") [])
read_value key (some (value, input)) = put_record key value input

read_put : Option (List ℕ × List ℕ) → Read
unfolding read_value
read_put none = bad_record (corruption (bytes "bad WriteBatch Put") [])
read_put (some (key, input)) = read_value key (get_length_prefixed_slice input)

read_delete : Option (List ℕ × List ℕ) → Read
read_delete none = bad_record (corruption (bytes "bad WriteBatch Delete") [])
read_delete (some (key, input)) = delete_record key input

unfoldable pub read_record : ℕ → List ℕ → Read
unfolding read_put read_delete
read_record tag input =
    if tag == type_code type_value
    then read_put (get_length_prefixed_slice input)
    else if tag == type_code type_deletion
    then read_delete (get_length_prefixed_slice input)
    else bad_record (corruption (bytes "unknown WriteBatch tag") [])

-- The loop of Iterate, with the rounds that are left; `none` is out of rounds. What the handler did
-- before an error stays done.
module _ {S : Type 0} (handler : Handler S) where
  unfoldable pub iterate_loop : ℕ → ℕ → ℕ → List ℕ → S → Option (Status × S)
  iterate_loop rounds expected found [] s =
      some
        ((if found == expected then ok else corruption (bytes "WriteBatch has wrong count") []), s)
  iterate_loop zero expected found (tag ∷ input) s = none
  iterate_loop (suc rounds) expected found (tag ∷ input) s = elim (read_record tag input) [
    | put_record key value rest ↦
        iterate_loop rounds expected (found + 1) rest (handler.on_put key value s)
    | delete_record key rest ↦
        iterate_loop rounds expected (found + 1) rest (handler.on_delete key s)
    | bad_record status ↦ some (status, s)
  ]

  -- Every turn takes the tag at least, so there are as many rounds as bytes.
  unfoldable pub iterate : WriteBatch → S → Option (Status × S)
  unfolding iterate_loop count
  iterate rep s =
      let walk = iterate_loop (length (drop header rep)) (count rep) 0 (drop header rep) s in
      if ltb (length rep) header
      then some (corruption (bytes "malformed WriteBatch (too small)") [], s)
      else walk
