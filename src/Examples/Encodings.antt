-- ===== src/Examples/Encodings.antt =====
-- Encodings of numbers, keys and errors at concrete inputs.
use Prim.Native.Nat.{Ordering}
use e_lsm_p.Base.{
  ℕ, ◌^◌, ◌≤◌, ◌≡◌, ◌≢◌, ◌↔◌, refl, false, some, List, [], ◌∷◌, ◌++◌, length, All, arith,
}
use e_lsm_p.Coding.Fixed.{IsByte, encode_fixed32, encode_fixed64, decode_fixed32, decode_fixed64}
use e_lsm_p.Coding.Fixed.Laws.{fixed_round_trip}
use e_lsm_p.Coding.Varint.{encode_varint32, encode_varint64, get_varint32, get_varint64}
use e_lsm_p.Coding.Varint.Decode.{varint_round_trip}
use e_lsm_p.FileNames.{
  k_log_file, k_db_lock_file, k_table_file, k_descriptor_file, k_current_file, k_temp_file,
  k_info_log_file, log_file_name, table_file_name, sst_table_file_name, descriptor_file_name,
  current_file_name, lock_file_name, temp_file_name, info_log_file_name, old_info_log_file_name,
  parse_file_name,
}
use e_lsm_p.FileNames.Parsing.{base_name, parse_file_name-made}
use e_lsm_p.Comparator.{bytewise}
use e_lsm_p.Comparator.Bytewise.{bytewise-IsComparator}
use e_lsm_p.DbFormat.{
  ParsedInternalKey, type_value, type_deletion, append_internal_key, parse_internal_key,
  internal_compare, lookup_key, internal_key,
}
use e_lsm_p.DbFormat.Keys.{internal_key_round_trip, IsSequence}
use e_lsm_p.DbFormat.Lookup.{lookup_sees}
use e_lsm_p.Status.{new_status, not_found_code, code_value, status_ok, status_code, to_string}
use e_lsm_p.Status.Text.{joined, code_text, new_status_text}

fixed_round_trip_example :
    (decode_fixed32 (encode_fixed32 258 ++ (7 ∷ [])) ≡ 258)
    × (decode_fixed64 (encode_fixed64 (2 ^ 40) ++ (7 ∷ [])) ≡ 2 ^ 40)
    × (length (encode_fixed32 258) ≡ 4)
    × (length (encode_fixed64 (2 ^ 40)) ≡ 8)
    × All IsByte (encode_fixed32 258)
    × All IsByte (encode_fixed64 (2 ^ 40))
fixed_round_trip_example = fixed_round_trip 258 (2 ^ 40) (7 ∷ []) (omega arith) (omega arith)

read_300 : get_varint32 (172 ∷ 2 ∷ 9 ∷ []) ≡ some (300, 9 ∷ [])
unfolding get_varint32
read_300 = refl

read_300_long : get_varint64 (172 ∷ 2 ∷ 9 ∷ []) ≡ some (300, 9 ∷ [])
unfolding get_varint64
read_300_long = refl

abbrev old_version : ParsedInternalKey
old_version = record { user_key = 97 ∷ []; sequence = 5; type = type_value }

abbrev new_version : ParsedInternalKey
new_version = record { user_key = 97 ∷ []; sequence = 9; type = type_deletion }

abbrev key_bytes : List ℕ
key_bytes = 97 ∷ 0 ∷ 9 ∷ 0 ∷ 0 ∷ 0 ∷ 0 ∷ 0 ∷ 0 ∷ []

parsed_key : parse_internal_key key_bytes ≡ some new_version
unfolding parse_internal_key
parsed_key = refl

abbrev key_ace : List ℕ
key_ace =
    append_internal_key []
      (record { user_key = 97 ∷ 99 ∷ 101 ∷ []; sequence = 5; type = type_value })

abbrev key_axe : List ℕ
key_axe =
    append_internal_key []
      (record { user_key = 97 ∷ 120 ∷ 101 ∷ []; sequence = 5; type = type_value })

lookup_sees_example :
    (internal_compare bytewise
        (internal_key (lookup_key (97 ∷ []) 7))
        (append_internal_key [] new_version)
      ≢ Ordering.gt)
    ↔ (9 ≤ 7)
lookup_sees_example =
    lookup_sees bytewise (97 ∷ []) 7 new_version bytewise-IsComparator (omega arith) (omega arith)
      refl

new_status_text_example :
    (status_ok (new_status not_found_code (97 ∷ []) (98 ∷ [])) ≡ false)
    × (status_code (new_status not_found_code (97 ∷ []) (98 ∷ [])) ≡ code_value not_found_code)
    × (to_string (λ c. []) (new_status not_found_code (97 ∷ []) (98 ∷ []))
        ≡ code_text not_found_code ++ joined (97 ∷ []) (98 ∷ []))
new_status_text_example = new_status_text (λ c. []) not_found_code (97 ∷ []) (98 ∷ []) (omega arith)

varint_round_trip_example :
    (get_varint32 (encode_varint32 300 ++ (9 ∷ [])) ≡ some (300, 9 ∷ []))
    × (get_varint64 (encode_varint64 (2 ^ 40) ++ (9 ∷ [])) ≡ some (2 ^ 40, 9 ∷ []))
varint_round_trip_example = varint_round_trip 300 (2 ^ 40) (9 ∷ []) (omega arith) (omega arith)

internal_key_round_trip_example :
    (parse_internal_key (append_internal_key [] new_version) ≡ some new_version)
    × (append_internal_key [] new_version ≡ key_bytes)
    × IsSequence 9
internal_key_round_trip_example =
    internal_key_round_trip new_version key_bytes new_version (omega arith)
      (
        omega arith,
        (
          omega arith,
          (
            omega arith,
            (
              omega arith,
              (omega arith, (omega arith, (omega arith, (omega arith, (omega arith, tt))))),
            ),
          ),
        ),
      )
      parsed_key

-- The number 7 in the directory "db".
abbrev db : List ℕ
db = 100 ∷ 98 ∷ []

parse_file_name-made_example :
    (parse_file_name (base_name db (log_file_name db 7)) ≡ some (7, k_log_file))
    × (parse_file_name (base_name db (table_file_name db 7)) ≡ some (7, k_table_file))
    × (parse_file_name (base_name db (sst_table_file_name db 7)) ≡ some (7, k_table_file))
    × (parse_file_name (base_name db (temp_file_name db 7)) ≡ some (7, k_temp_file))
    × (parse_file_name (base_name db (descriptor_file_name db 7)) ≡ some (7, k_descriptor_file))
    × (parse_file_name (base_name db (current_file_name db)) ≡ some (0, k_current_file))
    × (parse_file_name (base_name db (lock_file_name db)) ≡ some (0, k_db_lock_file))
    × (parse_file_name (base_name db (info_log_file_name db)) ≡ some (0, k_info_log_file))
    × (parse_file_name (base_name db (old_info_log_file_name db)) ≡ some (0, k_info_log_file))
parse_file_name-made_example = parse_file_name-made db 7 (omega arith)
