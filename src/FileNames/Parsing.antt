-- ===== src/FileNames/Parsing.antt =====
-- ParseFileName of Enclave/leveldb/db/filename.cpp reads back the names that the other functions make.
use e_lsm_p.Base.{
  ℕ, suc, ◌^◌, ◌<◌, ◌≡◌, refl, sym, ap, ◌∙◌, false, some, List, [], ◌∷◌, ◌++◌, length, drop, ◌==◌,
  All, arith, append-nil,
}
use e_lsm_p.Status.{bytes}
use e_lsm_p.FileNames.{
  k_log_file, k_db_lock_file, k_table_file, k_descriptor_file, k_current_file, k_temp_file,
  k_info_log_file, padded, make_file_name, log_file_name, table_file_name, sst_table_file_name,
  descriptor_file_name, current_file_name, lock_file_name, temp_file_name, info_log_file_name,
  old_info_log_file_name, consume_loop, consume_decimal_number, manifest_number, by_suffix,
  parse_file_name,
}
use e_lsm_p.FileNames.Decimal.{IsDigit, padded-value, consume_decimal_number-padded}

-- The name of a file in its directory: what follows `dbname/`.
abbrev pub base_name : List ℕ → List ℕ → List ℕ
base_name dbname fname = drop (suc (length dbname)) fname

base_name-append : (dbname rest : List ℕ) → base_name dbname (dbname ++ (47 ∷ rest)) ≡ rest
base_name-append [] rest = refl
base_name-append (c ∷ cs) rest = base_name-append cs rest

-- A name that begins with a digit is parsed by its suffix.
digits-parsed :
    (ds rest : List ℕ)
    → All IsDigit ds
    → 0 < length ds
    → parse_file_name (ds ++ rest) ≡ by_suffix (consume_decimal_number (ds ++ rest))
unfolding parse_file_name
digits-parsed [] rest h k = absurd (omega arith)
digits-parsed (d ∷ ds) rest ((low, high), h) k =
    let not_c : (d == 67) ≡ false = ground (arith, high) in
    let not_l : (d == 76) ≡ false = ground (arith, high) in
    let not_m : (d == 77) ≡ false = ground (arith, high) in rw (not_c, not_l, not_m) refl

stops_at :
    (n count c : ℕ) (suffix : List ℕ)
    → c < 48
    → consume_loop n count (c ∷ suffix) ≡ some (n, count, c ∷ suffix)
unfolding consume_loop
stops_at n count c suffix h = ground (arith, h)

module _ (dbname : List ℕ) (n : ℕ) (fits : n < 2 ^ 64) where
  made-parsed :
      (suffix : List ℕ)
      → parse_file_name (base_name dbname (make_file_name dbname n suffix))
        ≡ by_suffix (some (n, bytes "." ++ suffix))
  unfolding make_file_name
  made-parsed suffix =
      let (same, are_digits, some_there) = padded-value n fits in
      ap parse_file_name (base_name-append dbname (padded n ++ (bytes "." ++ suffix)))
      ∙ digits-parsed (padded n) (bytes "." ++ suffix) are_digits some_there
      ∙ ap by_suffix (
          consume_decimal_number-padded n (bytes "." ++ suffix) fits
            (stops_at n (length (padded n)) 46 suffix (omega arith)))

  nothing_left : (count : ℕ) → consume_loop n count [] ≡ some (n, count, [])
  unfolding consume_loop
  nothing_left count = refl

  descriptor-parsed :
      parse_file_name (bytes "MANIFEST-" ++ padded n)
      ≡ manifest_number (consume_decimal_number (padded n))
  unfolding parse_file_name
  descriptor-parsed = refl

  -- ParseFileName reads the name that each function makes of a database and a number back, its directory taken
  -- off, with the type of the file and the number, or 0 where the name has none. The number is a uint64_t.
  pub parse_file_name-made :
      (parse_file_name (base_name dbname (log_file_name dbname n)) ≡ some (n, k_log_file))
      × (parse_file_name (base_name dbname (table_file_name dbname n)) ≡ some (n, k_table_file))
      × (parse_file_name (base_name dbname (sst_table_file_name dbname n)) ≡ some (n, k_table_file))
      × (parse_file_name (base_name dbname (temp_file_name dbname n)) ≡ some (n, k_temp_file))
      × (parse_file_name (base_name dbname (descriptor_file_name dbname n))
          ≡ some (n, k_descriptor_file))
      × (parse_file_name (base_name dbname (current_file_name dbname)) ≡ some (0, k_current_file))
      × (parse_file_name (base_name dbname (lock_file_name dbname)) ≡ some (0, k_db_lock_file))
      × (parse_file_name (base_name dbname (info_log_file_name dbname)) ≡ some (0, k_info_log_file))
      × (parse_file_name (base_name dbname (old_info_log_file_name dbname))
          ≡ some (0, k_info_log_file))
  unfolding parse_file_name log_file_name table_file_name sst_table_file_name temp_file_name
      descriptor_file_name
  parse_file_name-made =
      let fixed = λ (rest : List ℕ). ap parse_file_name (base_name-append dbname rest) in
      let whole =
        ap (λ t. consume_decimal_number t) (sym (append-nil (padded n)))
        ∙ consume_decimal_number-padded n [] fits (nothing_left (length (padded n))) in
      (
        made-parsed (bytes "log"),
        made-parsed (bytes "ldb"),
        made-parsed (bytes "sst"),
        made-parsed (bytes "dbtmp"),
        fixed (bytes "MANIFEST-" ++ padded n) ∙ descriptor-parsed ∙ ap manifest_number whole,
        fixed (bytes "CURRENT"),
        fixed (bytes "LOCK"),
        fixed (bytes "LOG"),
        fixed (bytes "LOG.old"),
      )
