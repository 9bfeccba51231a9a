-- ===== src/TableCache.antt =====
-- Enclave/leveldb/db/table_cache.cpp: the cache of open tables, and the read path through it.
-- The LRU cache, the environment and Table stand behind an interface.
pub mod Reads
use e_lsm_p.Base.{
  ℕ, zero, suc, ◌+◌, Bool, true, false, Option, none, some, List, [], ◌∷◌, ◌++◌, if◌then◌else◌,
}
use e_lsm_p.Coding.Fixed.{encode_fixed64}
use e_lsm_p.Status.{Status, ok, status_ok}
use e_lsm_p.Builder.Tree.{Digest, tree_height}

-- Cache, Env, Table and the names of filename.cpp, as TableCache calls them. A table stands for the
-- pair TableAndFile, and `Cache` for the state of the cache, its arena included.
pub record Tables : Type 1 where
  pub Cache : Type 0
  pub File : Type 0
  pub Table : Type 0
  pub lookup : List ℕ → Cache → Option Table × Cache
  pub insert : List ℕ → Table → Cache → Cache
  pub erase : List ℕ → Cache → Cache
  pub table_file_name : ℕ → List ℕ
  pub sst_table_file_name : ℕ → List ℕ
  pub new_random_access_file : List ℕ → Status × Option File
  pub open_table : Option File → ℕ → Status × Option Table

module _ (env : Tables) where
  open env use {
    Cache, File, Table, lookup, insert, erase, table_file_name, sst_table_file_name,
    new_random_access_file, open_table,
  }

  -- The file under its name, or else under the old name.
  abbrev pub or_old_name : Status × Option File → Status × Option File → Status × Option File
  or_old_name (none, file) old = (none, file)
  or_old_name (some state, file) (none, old) = (none, old)
  or_old_name (some state, file) (some state', old) = (some state, old)

  abbrev pub open_after : ℕ → Status × Option File → Status × Option Table
  open_after file_size (none, file) = open_table file file_size
  open_after file_size (some state, file) = (some state, none)

  -- Errors are not cached.
  abbrev pub cache_result : List ℕ → Status × Option Table → Cache → Status × Option Table × Cache
  cache_result key (none, some table) cache = (ok, some table, insert key table cache)
  cache_result key (none, none) cache = (ok, none, cache)
  cache_result key (some state, table) cache = (some state, none, cache)

  unfoldable pub open_missing : ℕ → ℕ → Cache → Status × Option Table × Cache
  unfolding encode_fixed64
  open_missing file_number file_size cache =
      let key = encode_fixed64 file_number in
      let file =
        or_old_name (new_random_access_file (table_file_name file_number))
          (new_random_access_file (sst_table_file_name file_number)) in
      cache_result key (open_after file_size file) cache

  abbrev pub found_or_open : ℕ → ℕ → Option Table × Cache → Status × Option Table × Cache
  found_or_open file_number file_size (none, cache) = open_missing file_number file_size cache
  found_or_open file_number file_size (some table, cache) = (ok, some table, cache)

  unfoldable pub find_table : ℕ → ℕ → Cache → Status × Option Table × Cache
  unfolding open_missing
  find_table file_number file_size cache =
      found_or_open file_number file_size (lookup (encode_fixed64 file_number) cache)

  unfoldable pub evict : ℕ → Cache → Cache
  unfolding encode_fixed64
  evict file_number cache = erase (encode_fixed64 file_number) cache

-- The LPADP2 lines of Get: one code of the array `record` and one of the array `tmp` for each level,
-- each written to the global `cmac`. Neither array has been written to, and nothing reads the result.
unfoldable pub hash_levels : (List ℕ → Digest) → List ℕ → ℕ → Digest → Digest
hash_levels cmac tmp zero code = code
hash_levels cmac tmp (suc levels) code = hash_levels cmac tmp levels (cmac tmp)

-- What Get leaves: the status, the caller's state after the saver, the cache, and the global `cmac`.
pub record Got (S C : Type 0) : Type 0 where
  pub status : Status
  pub saved : S
  pub cache : C
  pub code : Digest

module _ (env : Tables) {S : Type 0} where
  open env use {Cache, Table}

  -- `internal_get` is Table::InternalGet on the key, with the saver and its argument.
  abbrev pub after_find :
      (Table → S → Status × S)
      → (List ℕ → Digest)
      → List ℕ
      → List ℕ
      → S
      → Digest
      → Status × Option Table × Cache
      → Got S Cache
  after_find internal_get cmac record_bytes tmp s code (none, some table, cache) = record {
    status = (internal_get table s).0;
    saved = (internal_get table s).1;
    cache = cache;
    code = hash_levels cmac tmp tree_height (cmac record_bytes);
  }
  after_find internal_get cmac record_bytes tmp s code (status, table, cache) = record {
    status = status;
    saved = s;
    cache = cache;
    code = code;
  }

  unfoldable pub get :
      (Table → S → Status × S)
      → (List ℕ → Digest)
      → List ℕ
      → List ℕ
      → ℕ
      → ℕ
      → S
      → Digest
      → Cache
      → Got S Cache
  unfolding find_table
  get internal_get cmac record_bytes tmp file_number file_size s code cache =
      after_find internal_get cmac record_bytes tmp s code
        (find_table env file_number file_size cache)
