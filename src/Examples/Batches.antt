-- ===== src/Examples/Batches.antt =====
-- Write batches, the table in memory and version edits at concrete inputs.
use e_lsm_p.Base.{ℕ, ◌+◌, ◌≡◌, ◌≢◌, refl, true, false, some, none, List, [], ◌∷◌, ◌++◌, All, arith}
use e_lsm_p.Coding.Fixed.{encode_fixed32, encode_fixed64}
use e_lsm_p.Comparator.{bytewise}
use e_lsm_p.DbFormat.{type_value}
use e_lsm_p.MemTable.{Table, encode_entry, get_entry, if_same, insert_into}
use e_lsm_p.MemTable.Gets.{answer_of, get_entry-encode_entry}
use e_lsm_p.MemTable.Inserts.{added, insert_into-Holds}
use e_lsm_p.Status.{ok}
use e_lsm_p.VersionEdit.{VersionEdit, new_file_meta_data, encode_to}
use e_lsm_p.VersionEdit.Decode.{decode_from}
use e_lsm_p.VersionEdit.RoundTrip.{WellFormed, read_over, decode_from-encode_to}
use e_lsm_p.WriteBatch.{WriteBatch, Handler, clear, put, delete, set_sequence, append, iterate}
use e_lsm_p.WriteBatch.Contents.{
  Update, put_update, delete_update, Fits, Holds, body, operations-Holds,
}
use e_lsm_p.WriteBatch.Walk.{handled, iterate-Holds, iterate-ne-none}

abbrev updates : List Update
updates = put_update (97 ∷ []) (1 ∷ []) ∷ delete_update (98 ∷ []) ∷ []

abbrev batch : WriteBatch
batch = encode_fixed64 7 ++ (encode_fixed32 2 ++ body updates)

batch-Holds : Holds batch 7 updates
batch-Holds = record { layout = refl; seq_fits = omega arith }

updates-Fits : All Fits updates
updates-Fits = ((omega arith, omega arith), (omega arith, tt))

-- A handler that keeps the keys it was given, the last in front.
abbrev keys_seen : Handler (List (List ℕ))
keys_seen = record { on_put = λ key value s. key ∷ s; on_delete = λ key s. key ∷ s }

iterate-Holds_example : iterate keys_seen batch [] ≡ some (ok, handled keys_seen updates [])
iterate-Holds_example =
    iterate-Holds keys_seen batch 7 updates [] batch-Holds updates-Fits (omega arith)

iterate-ne-none_example : iterate keys_seen (1 ∷ 2 ∷ []) [] ≢ none
iterate-ne-none_example = iterate-ne-none keys_seen (1 ∷ 2 ∷ []) []

operations-Holds_example :
    Holds clear 0 []
    × Holds (put batch (99 ∷ []) []) 7 (updates ++ (put_update (99 ∷ []) [] ∷ []))
    × Holds (delete batch (99 ∷ [])) 7 (updates ++ (delete_update (99 ∷ []) ∷ []))
    × Holds (set_sequence batch 7) 7 updates
    × Holds (append batch batch) 7 (updates ++ updates)
operations-Holds_example =
    operations-Holds batch batch 7 7 updates updates (99 ∷ []) [] batch-Holds batch-Holds
      (omega arith) (omega arith)

-- A table that keeps its entries in the order of their insertion.
abbrev logged : Table (List (List ℕ))
logged = record { insert = λ m e. e ∷ m; seek = λ m key. none }

insert_into-Holds_example :
    insert_into logged batch [] ≡ some (ok, (7 + 2, added logged 7 updates []))
insert_into-Holds_example =
    insert_into-Holds logged batch 7 updates [] batch-Holds updates-Fits (omega arith) (omega arith)

get_entry-encode_entry_example :
    get_entry bytewise (97 ∷ []) (some (encode_entry 7 type_value (97 ∷ []) (1 ∷ [])))
    ≡ if_same (bytewise.compare (97 ∷ []) (97 ∷ [])) (answer_of type_value (1 ∷ []))
get_entry-encode_entry_example =
    get_entry-encode_entry bytewise 7 type_value (97 ∷ []) (1 ∷ []) (97 ∷ []) (omega arith)
      (omega arith) (omega arith)

abbrev small_edit : VersionEdit
small_edit = record {
  comparator = [];
  log_number = 4;
  prev_log_number = 0;
  next_file_number = 0;
  last_sequence = 0;
  has_comparator = false;
  has_log_number = true;
  has_prev_log_number = false;
  has_next_file_number = false;
  has_last_sequence = false;
  compact_pointers = (1, 97 ∷ []) ∷ [];
  deleted_files = (0, 3) ∷ (0, 5) ∷ [];
  new_files = (2, new_file_meta_data 6 100 (97 ∷ []) (98 ∷ [])) ∷ [];
}

small_edit-WellFormed : WellFormed small_edit
small_edit-WellFormed = record {
  name_default = λ e. refl;
  log_default = λ e. absurd (let no_way : ⊥ = cc in no_way);
  prev_log_default = λ e. refl;
  next_file_default = λ e. refl;
  last_sequence_default = λ e. refl;
  name_fits = omega arith;
  log_fits = omega arith;
  prev_log_fits = omega arith;
  next_file_fits = omega arith;
  last_sequence_fits = omega arith;
  pointers_fit = ((omega arith, omega arith), tt);
  deleted_fit = ((omega arith, omega arith), ((omega arith, omega arith), tt));
  files_fit = ((omega arith, omega arith, omega arith, omega arith, omega arith), tt);
  ascending = ((refl, tt), (tt, tt));
  plain = (refl, tt);
}

decode_from-encode_to_example :
    decode_from (encode_to small_edit []) small_edit ≡ some (ok, read_over small_edit small_edit)
decode_from-encode_to_example = decode_from-encode_to small_edit small_edit small_edit-WellFormed
