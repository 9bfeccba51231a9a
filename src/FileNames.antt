-- ===== src/FileNames.antt =====
-- Enclave/leveldb/db/filename.cpp and filename.h: the names of the files of a database; and the decimal numbers of
-- Enclave/leveldb/util/logging.cpp. A name is the list of its characters.
pub mod Decimal
pub mod Parsing
use e_lsm_p.Base.{
  ℕ, zero, suc, ◌+◌, ◌-◌, ◌*◌, ◌/◌, ◌%◌, ◌^◌, Bool, true, false, ◌&&◌, ◌||◌, Option, none, some,
  List, [], ◌∷◌, ◌++◌, length, take, drop, replicate, ltb, leb, ◌==◌, if◌then◌else◌,
}
use e_lsm_p.Status.{Status, status_ok, bytes}

pub data FileType : Type 0 where
  k_log_file k_db_lock_file k_table_file k_descriptor_file k_current_file k_temp_file
        k_info_log_file :
      FileType

-- The digits of %llu, with the rounds that are left; 20 of them are enough for a uint64_t.
unfoldable pub digits : ℕ → ℕ → List ℕ
digits zero n = []
digits (suc rounds) n =
    let front = digits rounds (n / 10) in
    if ltb n 10 then (48 + n) ∷ [] else front ++ ((48 + n % 10) ∷ [])

abbrev pub number_digits : ℕ
number_digits = 20

-- AppendNumberTo and NumberToString.
unfoldable pub append_number_to : List ℕ → ℕ → List ℕ
unfolding digits
append_number_to str num = str ++ digits number_digits num

unfoldable pub number_to_string : ℕ → List ℕ
unfolding append_number_to
number_to_string num = append_number_to [] num

-- %06llu
unfoldable pub padded : ℕ → List ℕ
unfolding digits
padded num = replicate (6 - length (digits number_digits num)) 48 ++ digits number_digits num

unfoldable pub make_file_name : List ℕ → ℕ → List ℕ → List ℕ
unfolding padded
make_file_name name number suffix = name ++ (bytes "/" ++ (padded number ++ (bytes "." ++ suffix)))

unfoldable pub log_file_name : List ℕ → ℕ → List ℕ
unfolding make_file_name
log_file_name name number = make_file_name name number (bytes "log")

unfoldable pub table_file_name : List ℕ → ℕ → List ℕ
unfolding make_file_name
table_file_name name number = make_file_name name number (bytes "ldb")

unfoldable pub sst_table_file_name : List ℕ → ℕ → List ℕ
unfolding make_file_name
sst_table_file_name name number = make_file_name name number (bytes "sst")

unfoldable pub descriptor_file_name : List ℕ → ℕ → List ℕ
unfolding padded
descriptor_file_name dbname number = dbname ++ (bytes "/MANIFEST-" ++ padded number)

abbrev pub current_file_name : List ℕ → List ℕ
current_file_name dbname = dbname ++ bytes "/CURRENT"

abbrev pub lock_file_name : List ℕ → List ℕ
lock_file_name dbname = dbname ++ bytes "/LOCK"

unfoldable pub temp_file_name : List ℕ → ℕ → List ℕ
unfolding make_file_name
temp_file_name dbname number = make_file_name dbname number (bytes "dbtmp")

abbrev pub info_log_file_name : List ℕ → List ℕ
info_log_file_name dbname = dbname ++ bytes "/LOG"

abbrev pub old_info_log_file_name : List ℕ → List ℕ
old_info_log_file_name dbname = dbname ++ bytes "/LOG.old"

abbrev pub max_uint64 : ℕ
max_uint64 = 2 ^ 64 - 1

-- The loop of ConsumeDecimalNumber: the value, the count of digits and what is left; `none` on an overflow.
unfoldable pub consume_loop : ℕ → ℕ → List ℕ → Option (ℕ × ℕ × List ℕ)
consume_loop v count [] = some (v, count, [])
consume_loop v count (c ∷ cs) =
    let delta = c - 48 in
    let rest = consume_loop (v * 10 + delta) (suc count) cs in
    if leb 48 c && leb c 57
    then (if ltb (max_uint64 / 10) v || ((v == max_uint64 / 10) && ltb (max_uint64 % 10) delta)
        then none
        else rest)
    else some (v, count, c ∷ cs)

abbrev pub with_digits : Option (ℕ × ℕ × List ℕ) → Option (ℕ × List ℕ)
with_digits none = none
with_digits (some (v, count, rest)) = if ltb 0 count then some (v, rest) else none

-- ConsumeDecimalNumber; `none` stands for false.
unfoldable pub consume_decimal_number : List ℕ → Option (ℕ × List ℕ)
unfolding consume_loop
consume_decimal_number input = with_digits (consume_loop 0 0 input)

abbrev pub same_bytes : List ℕ → List ℕ → Bool
same_bytes [] [] = true
same_bytes [] (b ∷ bs) = false
same_bytes (a ∷ rest) [] = false
same_bytes (a ∷ rest) (b ∷ bs) = (a == b) && same_bytes rest bs

abbrev pub starts_with : List ℕ → List ℕ → Bool
starts_with s prefix = same_bytes (take (length prefix) s) prefix

abbrev pub manifest_number : Option (ℕ × List ℕ) → Option (ℕ × FileType)
manifest_number (some (num, [])) = some (num, k_descriptor_file)
manifest_number (some (num, c ∷ cs)) = none
manifest_number none = none

abbrev pub by_suffix : Option (ℕ × List ℕ) → Option (ℕ × FileType)
by_suffix none = none
by_suffix (some (num, suffix)) =
    if same_bytes suffix (bytes ".log")
    then some (num, k_log_file)
    else if same_bytes suffix (bytes ".sst") || same_bytes suffix (bytes ".ldb")
    then some (num, k_table_file)
    else if same_bytes suffix (bytes ".dbtmp")
    then some (num, k_temp_file)
    else none

unfoldable pub parse_file_name : List ℕ → Option (ℕ × FileType)
unfolding consume_decimal_number
parse_file_name fname =
    if same_bytes fname (bytes "CURRENT")
    then some (0, k_current_file)
    else if same_bytes fname (bytes "LOCK")
    then some (0, k_db_lock_file)
    else if same_bytes fname (bytes "LOG") || same_bytes fname (bytes "LOG.old")
    then some (0, k_info_log_file)
    else if starts_with fname (bytes "MANIFEST-")
    then manifest_number (consume_decimal_number (drop (length (bytes "MANIFEST-")) fname))
    else by_suffix (consume_decimal_number fname)

-- The calls of Env that SetCurrentFile makes; WriteStringToFileSync is one of util/env.cpp.
pub record Files (E : Type 0) : Type 0 where
  pub write_string_to_file_sync : List ℕ → List ℕ → E → Status × E
  pub rename_file : List ℕ → List ℕ → E → Status × E
  pub delete_file : List ℕ → E → Status × E

module _ {E : Type 0} (env : Files E) where
  abbrev pub then_rename : List ℕ → List ℕ → Status × E → Status × E
  then_rename tmp current (none, e) = env.rename_file tmp current e
  then_rename tmp current (some state, e) = (some state, e)

  -- The temporary file is deleted after an error; the status of that is not looked at.
  abbrev pub or_delete : List ℕ → Status × E → Status × E
  or_delete tmp (none, e) = (none, e)
  or_delete tmp (some state, e) = (some state, (env.delete_file tmp e).1)

  unfoldable pub set_current_file : List ℕ → ℕ → E → Status × E
  unfolding descriptor_file_name temp_file_name
  set_current_file dbname descriptor_number e =
      let contents = drop (length dbname + 1) (descriptor_file_name dbname descriptor_number) in
      let tmp = temp_file_name dbname descriptor_number in
      or_delete tmp (
        then_rename tmp (current_file_name dbname)
          (env.write_string_to_file_sync (contents ++ (10 ∷ [])) tmp e))
