-- ===== src/Builder/Table.antt =====
-- BuildTable of Enclave/leveldb/db/builder.cpp. What it asks of its environment is a record of the
-- answers; what it does is returned: the status, the metadata, the calls of TableBuilder::Add in
-- their order, and whether the file was kept.
pub mod Authentic
pub mod Outcome
use e_lsm_p.Base.{
  ℕ, zero, suc, ◌+◌, Bool, true, false, Option, none, some, List, [], ◌∷◌, ◌++◌, take, ltb, ◌&&◌,
  not, if◌then◌else◌,
}
use e_lsm_p.Status.{Status, ok, status_ok}
use e_lsm_p.VersionEdit.{FileMetaData}
use e_lsm_p.Builder.Tree.{Digest, Slots, Entry, build_tree, proof_loop, root}

-- VSIZE
abbrev pub value_size : ℕ
value_size = 112

-- The answers of the calls, in the order in which they are made.
pub record Answers : Type 0 where
  pub created : Status
  pub finished : Status
  pub built_size : ℕ
  pub synced : Status
  pub closed : Status
  pub usable : Status
  pub iterated : Status

pub record Built : Type 0 where
  pub status : Status
  pub meta : FileMetaData
  pub added : List Entry
  pub deleted : Bool

abbrev pub join : List Digest → List ℕ
join [] = []
join (d ∷ ds) = d ++ join ds

-- `if (s.ok()) s = next;`
abbrev pub and_then : Status → Status → Status
and_then none next = next
and_then (some state) next = some state

-- `if (iter->status()) ... else s = iter->status();`
abbrev pub unless_failed : Status → Status → Status
unless_failed none s = s
unless_failed (some state) s = some state

-- The loop of builder->Add. VSIZE bytes are copied from the value; `past` is what lies behind it in
-- memory, for a value that is shorter. The proof follows.
unfoldable pub add_loop : ℕ → ℕ → Slots → List ℕ → ℕ → List Entry → List Entry
unfolding proof_loop
add_loop records height merkle past ppos [] = []
add_loop records height merkle past ppos ((key, value) ∷ rest) =
    (key, take value_size (value ++ past) ++ join (proof_loop records height ppos merkle))
    ∷ add_loop records height merkle past (ppos + 1) rest

-- `meta->largest` after the loop: the last key.
abbrev pub last_key : List ℕ → List Entry → List ℕ
last_key key [] = key
last_key key ((k, v) ∷ rest) = last_key k rest

-- The last lines of BuildTable: the file is kept if all went well and it is not empty.
abbrev pub keep : Answers → Status → FileMetaData → List Entry → Built
keep answers s meta added =
    let s' = unless_failed answers.iterated s in
    record {
      status = s';
      meta = meta;
      added = added;
      deleted = not (status_ok s' && ltb 0 meta.file_size);
    }

module _ (cmac : List ℕ → Digest) (records height : ℕ) (fresh : Slots) (past : List ℕ) where
  -- A table for the records of a valid iterator, after its file has been created.
  unfoldable pub write_table : Answers → FileMetaData → List ℕ → List ℕ → List Entry → Built
  unfolding add_loop build_tree root
  write_table answers meta key value rest =
      let entries = (key, value) ∷ rest in
      let merkle = build_tree cmac records height fresh entries in
      let s = answers.finished in
      let size = if status_ok s then answers.built_size else 0 in
      let s' = and_then (and_then (and_then s answers.synced) answers.closed) answers.usable in
      let meta' = record meta {
        file_size = size;
        smallest = key;
        largest = last_key key rest;
        rh = some (root records merkle);
      } in
      keep answers s' meta' (add_loop records height merkle past 0 entries)

  abbrev pub after_create : Answers → FileMetaData → List ℕ → List ℕ → List Entry → Status → Built
  after_create answers meta key value rest none = write_table answers meta key value rest
  after_create answers meta key value rest (some state) = record {
    status = some state;
    meta = meta;
    added = [];
    deleted = false;
  }

  unfoldable pub build_table : Answers → FileMetaData → List Entry → Built
  unfolding write_table
  build_table answers meta [] = keep answers ok (record meta { file_size = 0 }) []
  build_table answers meta ((key, value) ∷ rest) =
      after_create answers (record meta { file_size = 0 }) key value rest answers.created
