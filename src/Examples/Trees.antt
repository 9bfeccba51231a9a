-- ===== src/Examples/Trees.antt =====
-- The Merkle tree of db/builder.cpp at small heights, and the cache of tables.
use e_lsm_p.Base.{
  ℕ, ◌+◌, ◌%◌, ◌<◌, ◌≡◌, ◌≢◌, ◌⊎◌, ◌↔◌, refl, false, Option, none, some, List, [], ◌∷◌, ◌++◌,
  get_elem?, replicate, arith, map,
}
use e_lsm_p.Builder.Tree.{Digest, Slots, Entry, slot, proof_loop, root, build_tree}
use e_lsm_p.Builder.Tree.Levels.{IsBuilt, build_tree-IsBuilt, build_tree_fresh_leaf}
use e_lsm_p.Builder.Tree.Proofs.{climb, climb-build_tree, build_tree_ignores}
use e_lsm_p.Builder.Tree.Binding.{Collision, build_tree_binding}
use e_lsm_p.Builder.Table.{Answers, join, build_table}
use e_lsm_p.Builder.Table.Authentic.{build_table-authentic}
use e_lsm_p.Builder.Table.Outcome.{first_failure, without_proof, build_table_outcome}
use e_lsm_p.Status.{Status, ok}
use e_lsm_p.TableCache.{Tables}
use e_lsm_p.VersionEdit.{FileMetaData, new_file_meta_data}

-- The sum of the bytes, as a code of one byte.
abbrev total : List ℕ → ℕ
total [] = 0
total (b ∷ bs) = b + total bs

abbrev toy_cmac : List ℕ → Digest
toy_cmac m = total m % 256 ∷ []

abbrev blank : Slots
blank = replicate 4 []

abbrev one_entry : Entry
one_entry = (1 ∷ [], 2 ∷ [])

abbrev other_entry : Entry
other_entry = (3 ∷ [], 4 ∷ [])

climb-build_tree_example :
    climb toy_cmac 2 1
      (toy_cmac ((3 ∷ []) ++ (4 ∷ [])))
      (proof_loop 2 1 1 (build_tree toy_cmac 2 1 blank (one_entry ∷ other_entry ∷ [])))
    ≡ root 2 (build_tree toy_cmac 2 1 blank (one_entry ∷ other_entry ∷ []))
climb-build_tree_example =
    climb-build_tree toy_cmac 1 blank (one_entry ∷ []) [] (3 ∷ []) (4 ∷ []) refl (omega arith)

climbed :
    climb toy_cmac 2 1 (toy_cmac (3 ∷ 4 ∷ [])) (toy_cmac (1 ∷ 2 ∷ []) ∷ [])
    ≡ root 2 (build_tree toy_cmac 2 1 blank (one_entry ∷ other_entry ∷ []))
unfolding build_tree root climb
climbed = refl

build_tree_binding_example :
    ((◌≡◌ {A = List ℕ} (3 ∷ 4 ∷ []) ((3 ∷ []) ++ (4 ∷ [])))
      × ((toy_cmac (1 ∷ 2 ∷ []) ∷ [])
          ≡ proof_loop 2 1 1 (build_tree toy_cmac 2 1 blank (one_entry ∷ other_entry ∷ []))))
    ⊎ Collision toy_cmac
build_tree_binding_example =
    build_tree_binding toy_cmac 1 1 blank (one_entry ∷ []) [] (3 ∷ []) (4 ∷ []) (3 ∷ 4 ∷ [])
      (toy_cmac (1 ∷ 2 ∷ []) ∷ []) (λ m. refl) refl (omega arith) refl climbed

build_tree-IsBuilt_example : IsBuilt toy_cmac 2 3 (build_tree toy_cmac 2 1 blank (one_entry ∷ []))
build_tree-IsBuilt_example = build_tree-IsBuilt toy_cmac 1 blank (one_entry ∷ []) refl

build_tree_fresh_leaf_example :
    slot (build_tree toy_cmac 2 1 ([] ∷ (9 ∷ []) ∷ [] ∷ [] ∷ []) (one_entry ∷ [])) 1 ≡ 9 ∷ []
build_tree_fresh_leaf_example =
    build_tree_fresh_leaf toy_cmac 1 ([] ∷ (9 ∷ []) ∷ [] ∷ [] ∷ []) (one_entry ∷ []) 1 refl
      (omega arith) (omega arith)

build_tree_ignores_example :
    build_tree toy_cmac 2 1 blank ((one_entry ∷ one_entry ∷ []) ++ (other_entry ∷ []))
    ≡ build_tree toy_cmac 2 1 blank (one_entry ∷ one_entry ∷ [])
build_tree_ignores_example =
    build_tree_ignores toy_cmac 2 1 blank (one_entry ∷ one_entry ∷ []) (other_entry ∷ [])
      (omega arith)

abbrev all_ok : Answers
all_ok = record {
  created = ok;
  finished = ok;
  built_size = 40;
  synced = ok;
  closed = ok;
  usable = ok;
  iterated = ok;
}

abbrev new_meta : FileMetaData
new_meta = new_file_meta_data 5 0 [] []

abbrev full_value : List ℕ
full_value = replicate 112 7

build_table-authentic_example :
    let built =
      build_table toy_cmac 2 1 blank [] all_ok new_meta (one_entry ∷ (3 ∷ [], full_value) ∷ []) in
    let proof =
      proof_loop 2 1 1 (build_tree toy_cmac 2 1 blank (one_entry ∷ (3 ∷ [], full_value) ∷ [])) in
    (get_elem? built.added 1 ≡ some (3 ∷ [], full_value ++ join proof))
    × (built.meta.rh ≡ some (climb toy_cmac 2 1 (toy_cmac ((3 ∷ []) ++ full_value)) proof))
build_table-authentic_example =
    build_table-authentic toy_cmac 1 blank [] all_ok new_meta (one_entry ∷ []) [] (3 ∷ [])
      full_value refl refl (omega arith) refl

build_table_outcome_example :
    let entries : List Entry = (1 ∷ [], full_value) ∷ (3 ∷ [], full_value) ∷ [] in
    let built = build_table toy_cmac 2 1 blank [] all_ok new_meta entries in
    ((ok ≢ ok) × (built.status ≡ ok) × (built.added ≡ []) × (built.deleted ≡ false))
    ⊎ ((ok ≡ ok)
        × (built.status ≡ first_failure (ok ∷ ok ∷ ok ∷ ok ∷ ok ∷ []))
        × (map without_proof built.added ≡ entries)
        × (built.meta.smallest ≡ 1 ∷ [])
        × (built.meta.largest ≡ 3 ∷ [])
        × (built.meta.rh ≡ some (root 2 (build_tree toy_cmac 2 1 blank entries)))
        × ((built.deleted ≡ false) ↔ ((built.status ≡ ok) × (0 < 40))))
build_table_outcome_example =
    build_table_outcome toy_cmac 2 1 blank [] all_ok new_meta (1 ∷ []) full_value
      ((3 ∷ [], full_value) ∷ []) (refl, (refl, tt))

-- A cache that holds one table at most, and files that all open as table 7.
abbrev one_slot : Tables
one_slot = record {
  Cache = Option ℕ;
  File = ℕ;
  Table = ℕ;
  lookup = λ key c. (c, c);
  insert = λ key t c. some t;
  erase = λ key c. none;
  table_file_name = λ n. n ∷ [];
  sst_table_file_name = λ n. n ∷ [];
  new_random_access_file = λ name. (ok, some 7);
  open_table = λ file size. (ok, some 7);
}

abbrev saver : ℕ → List ℕ → Status × List ℕ
saver t s = (ok, t ∷ s)
