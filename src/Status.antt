-- ===== src/Status.antt =====
-- Enclave/leveldb/include/leveldb/status.h and util/status.cpp: the result of an operation, as the
-- byte array that `state_` points to.
pub mod Text
use Prim.Native.Char.{code}
use Prim.Native.String.{String}
use e_lsm_p.Base.{
  ℕ, zero, suc, ◌+◌, ◌%◌, ◌^◌, Bool, true, false, Option, none, some, List, [], ◌∷◌, ◌++◌, length,
  take, drop, get_or, ◌==◌, if◌then◌else◌,
}
use e_lsm_p.Coding.Fixed.{memory_bytes, memory_value}

-- The bytes of an ASCII literal.
abbrev pub bytes : String → List ℕ
bytes String.[] = []
bytes (String.◌∷◌ c s) = code c ∷ bytes s

-- NULL is `none`. Bytes 0 to 3 are the message's length, byte 4 the code, the rest the message.
abbrev pub Status : Type 0
Status = Option (List ℕ)

pub data Code : Type 0 where
  is_ok not_found_code corruption_code not_supported_code invalid_argument_code io_error_code : Code

abbrev pub code_value : Code → ℕ
code_value is_ok = 0
code_value not_found_code = 1
code_value corruption_code = 2
code_value not_supported_code = 3
code_value invalid_argument_code = 4
code_value io_error_code = 5

-- The constructor of an error; `msg2` is left out where it is empty.
unfoldable pub new_status : Code → List ℕ → List ℕ → Status
new_status c msg msg2 =
    let len1 = length msg % 2 ^ 32 in
    let len2 = length msg2 % 2 ^ 32 in
    let size = (len1 + (if len2 == 0 then 0 else 2 + len2)) % 2 ^ 32 in
    let second = if len2 == 0 then [] else 58 ∷ 32 ∷ take len2 msg2 in
    some (memory_bytes 4 size ++ (code_value c ∷ (take len1 msg ++ second)))

abbrev pub ok : Status
ok = none

unfoldable pub not_found : List ℕ → List ℕ → Status
unfolding new_status
not_found = new_status not_found_code

unfoldable pub corruption : List ℕ → List ℕ → Status
unfolding new_status
corruption = new_status corruption_code

unfoldable pub io_error : List ℕ → List ℕ → Status
unfolding new_status
io_error = new_status io_error_code

abbrev pub status_ok : Status → Bool
status_ok none = true
status_ok (some state) = false

unfoldable pub status_code : Status → ℕ
status_code none = 0
status_code (some state) = get_or state 4 0

unfoldable pub is_not_found : Status → Bool
unfolding status_code
is_not_found s = status_code s == 1

unfoldable pub is_corruption : Status → Bool
unfolding status_code
is_corruption s = status_code s == 2

abbrev pub type_text : ℕ → Option (List ℕ)
type_text zero = some (bytes "OK")
type_text (suc zero) = some (bytes "NotFound: ")
type_text (suc (suc zero)) = some (bytes "Corruption: ")
type_text (suc (suc (suc zero))) = some (bytes "Not implemented: ")
type_text (suc (suc (suc (suc zero)))) = some (bytes "Invalid argument: ")
type_text (suc (suc (suc (suc (suc zero))))) = some (bytes "IO error: ")
type_text (suc (suc (suc (suc (suc (suc c)))))) = none

-- `state_ + 5` with the length that is stored in front.
abbrev pub message : List ℕ → List ℕ
message state = take (memory_value 4 state) (drop 5 state)

abbrev pub text_or : List ℕ → Option (List ℕ) → List ℕ
text_or unknown none = unknown
text_or unknown (some t) = t

-- Status::ToString; `print_code` is the snprintf of "Unknown code(%d): ".
unfoldable pub to_string : (ℕ → List ℕ) → Status → List ℕ
unfolding status_code
to_string print_code none = bytes "OK"
to_string print_code (some state) =
    let c = status_code (some state) in text_or (print_code c) (type_text c) ++ message state
